-- ===== src/Shell/Iter/Quotes.antt =====
-- A line of words in single quotes: what it means as a command.
use pisshoff.Base.{ℕ, List, [], ◌∷◌, ◌++◌, some, ok, Bytes, ◌≡◌, refl, ap, ◌∙◌, All, append_assoc}
use pisshoff.Nom.{Nom, ◌>>=◌}
use pisshoff.Nom.Laws.{NomLaws}
use pisshoff.Nom.Nesting.{NestingLaws}
use pisshoff.Nom.Loops.{LoopLaws}
use pisshoff.Command.Concrete.{PartialCommand}
use pisshoff.Shell.Parts.{string, cons}
use pisshoff.Shell.Tokens.{tokenize}
use pisshoff.Shell.Tokens.Quoting.{IsQuotable, print, more_parts, tokenize-print}
use pisshoff.Shell.Iter.{Env, Built, fresh, on_break, store, partial}
use pisshoff.Shell.Iter.Meaning.{meaning}
use pisshoff.Shell.Iter.Words.{last-concat, init-concat}

-- What becomes of the words as parameters: an empty one is lost, but at the end of the line.
unfoldable pub kept : List Bytes → List Bytes
kept [] = []
kept (w ∷ []) = w ∷ []
kept ([] ∷ v ∷ ws) = kept (v ∷ ws)
kept ((c ∷ w) ∷ v ∷ ws) = (c ∷ w) ∷ kept (v ∷ ws)

abbrev named : Bytes → List Bytes → Built
named w ps = record fresh { exec = some w; params = ps }

on_break_empty :
    (name : Bytes) (ps : List Bytes)
    → on_break (named name (ps ++ [] ∷ [])) ≡ named name (ps ++ [] ∷ [])
unfolding on_break
on_break_empty name ps = rw (last-concat ps [], on_break) refl

on_break_word :
    (name : Bytes) (c : ℕ) (w : Bytes) (ps : List Bytes)
    → on_break (named name (ps ++ (c ∷ w) ∷ [])) ≡ named name ((ps ++ (c ∷ w) ∷ []) ++ [] ∷ [])
unfolding on_break
on_break_word name c w ps = rw (last-concat ps (c ∷ w), on_break) refl

store_word :
    (name w : Bytes) (ps : List Bytes)
    → store w (named name (ps ++ [] ∷ [])) ≡ named name (ps ++ w ∷ [])
unfolding store
store_word name w ps =
    rw (last-concat ps [], store) (ap (λ qs. named name (qs ++ w ∷ [])) (init-concat ps []))

module _ (env : Env) (answer : PartialCommand → Bytes) (name : Bytes) where
  -- Behind a break, where the parameter to fill is empty.
  meaning-more_parts :
      (w : Bytes) (ws ps : List Bytes)
      → meaning env answer (cons (string w) (more_parts ws)) (named name (ps ++ [] ∷ []))
        ≡ named name (ps ++ kept (w ∷ ws))
  unfolding meaning kept
  meaning-more_parts w [] ps = store_word name w ps
  meaning-more_parts [] (v ∷ ws) ps =
      ap (λ b. meaning env answer (cons (string v) (more_parts ws)) (on_break b))
        (store_word name [] ps)
      ∙ ap (meaning env answer (cons (string v) (more_parts ws))) (on_break_empty name ps)
      ∙ meaning-more_parts v ws ps
  meaning-more_parts (c ∷ w) (v ∷ ws) ps =
      ap (λ b. meaning env answer (cons (string v) (more_parts ws)) (on_break b))
        (store_word name (c ∷ w) ps)
      ∙ ap (meaning env answer (cons (string v) (more_parts ws))) (on_break_word name c w ps)
      ∙ meaning-more_parts v ws (ps ++ (c ∷ w) ∷ [])
      ∙ ap (named name) (append_assoc ps ((c ∷ w) ∷ []) (kept (v ∷ ws)))

  meaning-words :
      (ws : List Bytes)
      → partial (meaning env answer (cons (string name) (more_parts ws)) fresh)
        ≡ record { exec = some name; params = kept ws }
  unfolding meaning kept store on_break
  meaning-words [] = refl
  meaning-words (w ∷ ws) = ap partial (meaning-more_parts w ws [])

module _ ⦃nom : Nom⦄ (laws : NomLaws nom) (nesting : NestingLaws nom) (loops : LoopLaws nom) where
  -- By the laws of nom, a line of words in single quotes, with a space between them, is read back as
  -- one command: whatever bytes the words have but single quotes, the first is its name and the
  -- others are its parameters, but for empty words in front of another word, which are lost.
  pub meaning-print :
      (env : Env) (answer : PartialCommand → Bytes) (name : Bytes) (ws : List Bytes)
      → All IsQuotable (name ∷ ws)
      → tokenize (print name ws)
          >>= (λ (rest, ps). ok (rest, partial (meaning env answer ps fresh)))
        ≡ ok ([], record { exec = some name; params = kept ws })
  meaning-print env answer name ws h =
      rw (tokenize-print laws nesting loops name ws h)
        (ap (λ cmd. ok ([], cmd)) (meaning-words env answer name ws))
