-- ===== src/Shell/Machine/Rounds.antt =====
-- What the loop of the shell does on every path, and that two rounds are all that it takes.
use pisshoff.Base.{ℕ, suc, Bool, true, false, Bytes, ◌≡◌, refl, arith, ok, err, ◌∙◌, sym, ap}
use pisshoff.Nom.{Nom, IResult}
use pisshoff.Session.{ChannelId, Session, ◌▸◌, data_call, exit_status_request, close_call}
use pisshoff.Connection.{ConnectionState}
use pisshoff.Command.Results as Results
use pisshoff.Command.Results.{CommandResult, Ran}
use pisshoff.Shell.Parts.{Parts}
use pisshoff.Shell.Iter as Iter
use pisshoff.Shell.Tokens.{tokenize}
use pisshoff.Shell.Executing as Executing
use pisshoff.Shell.Executing.{ExecutingCommand}
use pisshoff.Shell.Machine.{
  State, prompt, running, exit, quit, Shell, shell_prompt, handle_command_result, Round, next,
  breaks, handled, on_parsed, round, loop, finish, data_received,
}

-- A round that goes on leads to a state that ends the loop.
abbrev Closing : Round → Type 0
Closing (breaks c s) = Unit
Closing (next (state, true) c s) = Unit
Closing (next (prompt, false) c s) = ⊥
Closing (next (running cmd, false) c s) = ⊥
Closing (next (exit n, false) c s) = Unit
Closing (next (quit n, false) c s) = Unit

handled-Closing :
    (interactive : Bool) (r : Ran ExecutingCommand Session) → Closing (handled interactive r)
unfolding handled handle_command_result
handled-Closing interactive (Results.read_stdin cmd, c, s) = tt
handled-Closing true (Results.exit n, c, s) = tt
handled-Closing false (Results.exit n, c, s) = tt
handled-Closing interactive (Results.close n, c, s) = tt

module _ ⦃nom : Nom⦄ (interactive : Bool) (ch : ChannelId) where
  on_parsed-Closing :
      (r : IResult Parts) (c : ConnectionState) (s : Session)
      → Closing (on_parsed interactive ch r c s)
  unfolding on_parsed
  on_parsed-Closing (ok (rest, args)) c s =
      handled-Closing interactive (Executing.new ch (Iter.new args) c s)
  on_parsed-Closing (err e) c s = tt

  round-Closing :
      (state : State) (input : Bytes) (c : ConnectionState) (s : Session)
      → Closing (round interactive ch state input c s)
  unfolding round
  round-Closing prompt input c s = on_parsed-Closing (tokenize input) _ s
  round-Closing (running cmd) input c s =
      handled-Closing interactive (Executing.stdin ch cmd c input s)
  round-Closing (exit n) input c s = tt
  round-Closing (quit n) input c s = tt

  -- What comes after a round, where the loop has fuel for one more or for more than one.
  unfoldable pub go_on :
      (State → ConnectionState → Session → State × ConnectionState × Session)
      → Round
      → State × ConnectionState × Session
  go_on go (breaks c s) = (prompt, c, s)
  go_on go (next (state, true) c s) = (state, c, s)
  go_on go (next (state, false) c s) = go state c s

  pub loop-go_on :
      (f : ℕ) (state : State) (input : Bytes) (c : ConnectionState) (s : Session)
      → loop interactive ch (suc f) state input c s
        ≡ go_on
            (λ state c s. loop interactive ch f state input c s)
            (round interactive ch state input c s)
  unfolding loop go_on
  loop-go_on f state input c s = ground arith

  go_on-Closing :
      (k : ℕ) (input : Bytes) (r : Round)
      → Closing r
      → go_on (λ state c s. loop interactive ch (suc k) state input c s) r
        ≡ go_on (λ state c s. loop interactive ch 1 state input c s) r
  unfolding go_on loop round
  go_on-Closing k input (breaks c s) l = refl
  go_on-Closing k input (next (state, true) c s) l = refl
  go_on-Closing k input (next (prompt, false) c s) l = absurd l
  go_on-Closing k input (next (running cmd, false) c s) l = absurd l
  go_on-Closing k input (next (exit n, false) c s) l = refl
  go_on-Closing k input (next (quit n, false) c s) l = refl

  -- The loop ends after at most two rounds: from any state and with any data, fuel for more rounds
  -- gives the same result.
  loop_ends :
      (k : ℕ) (state : State) (input : Bytes) (c : ConnectionState) (s : Session)
      → loop interactive ch (suc (suc k)) state input c s ≡ loop interactive ch 2 state input c s
  loop_ends k state input c s =
      loop-go_on (suc k) state input c s
      ∙ go_on-Closing k input (round interactive ch state input c s) (round-Closing state input c s)
      ∙ sym (loop-go_on 1 state input c s)

-- What the client of a channel sees of a command's outcome.
abbrev pub settled :
    Bool → ChannelId → Ran ExecutingCommand Session → Shell × ConnectionState × Session
settled interactive ch (Results.read_stdin cmd, c, s) =
    (record { interactive = interactive; state = running cmd }, c, s)
settled true ch (Results.exit n, c, s) = (
  record { interactive = true; state = prompt },
  c,
  s ▸ exit_status_request ch n ▸ data_call ch shell_prompt,
)
settled false ch (Results.exit n, c, s) = (
  record { interactive = false; state = prompt },
  c,
  s ▸ exit_status_request ch n ▸ close_call ch ▸ data_call ch shell_prompt,
)
settled interactive ch (Results.close n, c, s) = (
  record { interactive = interactive; state = prompt },
  c,
  s ▸ exit_status_request ch n ▸ close_call ch ▸ data_call ch shell_prompt,
)

finish-settled :
    ⦃nom : Nom⦄ (interactive : Bool) (ch : ChannelId) (input : Bytes)
    (r : Ran ExecutingCommand Session)
    → finish ch interactive (
        go_on interactive ch
          (λ state c s. loop interactive ch 1 state input c s)
          (handled interactive r))
      ≡ settled interactive ch r
unfolding finish go_on loop round handled handle_command_result
finish-settled interactive ch input (Results.read_stdin cmd, c, s) = refl
finish-settled true ch input (Results.exit n, c, s) = refl
finish-settled false ch input (Results.exit n, c, s) = refl
finish-settled interactive ch input (Results.close n, c, s) = refl

-- Data for a running command goes to it alone, and its outcome is treated in the same way.
data_received-running :
    ⦃nom : Nom⦄ (interactive : Bool) (cmd : ExecutingCommand) (c : ConnectionState) (ch : ChannelId)
    (input : Bytes) (s : Session)
    → data_received (record { interactive = interactive; state = running cmd }) c ch input s
      ≡ settled interactive ch (Executing.stdin ch cmd c input s)
unfolding data_received round
data_received-running interactive cmd c ch input s =
    ap (finish ch interactive) (loop-go_on interactive ch 1 (running cmd) input c s)
    ∙ finish-settled interactive ch input (Executing.stdin ch cmd c input s)
