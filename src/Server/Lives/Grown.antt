-- ===== src/Server/Lives/Grown.antt =====
-- No log that has been sent is lost.
use pisshoff.Base.{Bool, List, [], ◌∷◌, ◌++◌, Option, none, some, ◌≡◌, refl, sym, append-nil, subst}
use pisshoff.Nom.{Nom}
use pisshoff.Audit.{AuditLog}
use pisshoff.Sftp.{Uuids}
use pisshoff.Server.Channels.{respond}
use pisshoff.Server.Lives.{
  Client, at, departed, returned, Attempt, World, Happening, opened, tried, asked, closed, known,
  with_clients, let_in, dropped, happen,
}

-- A list, and what has been added behind it.
pub record Longer {A : Type 0} (xs ys : List A) : Type 0 where
  pub added : List A
  pub whole : ys ≡ xs ++ added

same_list : {A : Type 0} (xs : List A) → Longer xs xs
same_list xs = record { added = []; whole = sym (append-nil xs) }

module _ {F64 : Type 0} (at_most : F64 → F64 → Bool) where
  abbrev HasSent : List AuditLog → Option (World at_most) → Type 0
  HasSent sent none = Unit
  HasSent sent (some w) = Longer sent w.sent

  with_clients-HasSent :
      (w : World at_most) (xs : Option (List Client)) → HasSent w.sent (with_clients at_most w xs)
  with_clients-HasSent w none = tt
  with_clients-HasSent w (some xs) = same_list w.sent

  tried-HasSent :
      (a : Attempt at_most) (w : World at_most) (x : Option (Client × List Client))
      (ys : Option (List Client))
      → HasSent w.sent (with_clients at_most (let_in at_most a w x) ys)
  tried-HasSent a w none ys = with_clients-HasSent w ys
  tried-HasSent a w (some (x, xs)) ys = with_clients-HasSent (let_in at_most a w (some (x, xs))) ys

  dropped-HasSent :
      (w : World at_most) (x : Option (Client × List Client)) → HasSent w.sent (dropped at_most w x)
  dropped-HasSent w none = tt
  dropped-HasSent w (some (x, xs)) = record {
    added = x.connection.state.audit_log ∷ [];
    whole = refl;
  }

module _ {F64 : Type 0} (at_most : F64 → F64 → Bool) ⦃nom : Nom⦄ ⦃uuids : Uuids⦄ where
  happen-HasSent :
      (h : Happening at_most) (w : World at_most) → HasSent at_most w.sent (happen at_most h w)
  unfolding happen
  happen-HasSent (opened o) w = same_list w.sent
  happen-HasSent (tried k a) w =
      tried-HasSent at_most a w (departed k w.clients) (at k (known at_most a w.server) w.clients)
  happen-HasSent (asked k r) w =
      with_clients-HasSent at_most w (at k (λ c s. returned (respond r c s)) w.clients)
  happen-HasSent (closed k) w = dropped-HasSent at_most w (departed k w.clients)

  -- Whatever happens, the logs that were sent stay, and others come behind them.
  pub happen-Longer :
      (h : Happening at_most) (w w' : World at_most)
      → happen at_most h w ≡ some w'
      → Longer w.sent w'.sent
  happen-Longer h w w' e = subst (HasSent at_most w.sent) e (happen-HasSent h w)
