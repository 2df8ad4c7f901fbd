-- ===== src/Command/Logs.antt =====
-- No command removes or rewrites what the audit log of its connection has.
use pisshoff.Base.{
  ℕ, zero, suc, Bool, true, false, List, [], ◌∷◌, ◌++◌, map, Option, none, some, Bytes, bytes, beq,
  is_empty, if◌then◌else◌, Option-cases, Bool-cases, inl, inr, ltb, ok, err, length,
}
use pisshoff.Std.Utf8.{from_utf8_lossy}
use pisshoff.Nom.{Nom, IResult}
use pisshoff.Session.{ThrusshSession, ChannelId}
use pisshoff.Connection.{ConnectionState, file_system}
use pisshoff.Connection.Grows.{Grows, Grows-refl, Grows-trans, push-Grows, file_system-Grows}
use pisshoff.Command.Results.{Ran, argparse}
use pisshoff.Command.Echo
use pisshoff.Command.Exit
use pisshoff.Command.Ls
use pisshoff.Command.Pwd
use pisshoff.Command.Scp
use pisshoff.Command.Scp.Messages.{Receive, parse}
use pisshoff.Command.Uname
use pisshoff.Command.Whoami
use pisshoff.Command.Cat
use pisshoff.Command.Concrete as Concrete
use pisshoff.Command.Concrete.{PartialCommand, ConcreteCommand, into_concrete_command, wrap}

module _ {S : Type 0} ⦃t : ThrusshSession S⦄ where
  cat_run-Grows :
      (ps : List Bytes) (status : ℕ) (c : ConnectionState) (ch : ChannelId) (s : S)
      → Grows c (Cat.run ps status c ch s).1
  unfolding Cat.run
  cat_run-Grows [] status c ch s = Grows-refl c
  cat_run-Grows (p ∷ ps) status c ch s = elim (Bool-cases (beq p (bytes "-"))) [
    | inl dash ↦ rw (dash, Cat.run) (Grows-refl c)
    | inr other ↦
        rw (other, Cat.run)
          (Grows-trans (file_system-Grows c) (cat_run-Grows ps _ (file_system c).1 ch _))
  ]

  cat-Grows :
      (ps : List Bytes) (c : ConnectionState) (ch : ChannelId) (s : S)
      → Grows c (Cat.new c ps ch s).1
  unfolding Cat.new
  cat-Grows [] c ch s = Grows-refl c
  cat-Grows (p ∷ ps) c ch s = cat_run-Grows (p ∷ ps) 0 c ch s

  scp_start-Grows :
      (r : Option (Option Bytes × Bool)) (c : ConnectionState) (ch : ChannelId) (s : S)
      → Grows c (Scp.start r c ch s).1
  unfolding Scp.start
  scp_start-Grows none c ch s = Grows-refl c
  scp_start-Grows (some (none, transfer)) c ch s = Grows-refl c
  scp_start-Grows (some (some path, true)) c ch s = Grows-refl c
  scp_start-Grows (some (some path, false)) c ch s = Grows-refl c

  if-Grows :
      {C : Type 0} (c : ConnectionState) (e : Bool) (x y : Ran C S)
      → Grows c x.1
      → Grows c y.1
      → Grows c (if e then x else y).1
  if-Grows c true x y g h = g
  if-Grows c false x y g h = h

  dispatch-Grows :
      (c : ConnectionState) (name : Bytes) (ps : List Bytes) (ch : ChannelId) (s : S)
      → Grows c (Concrete.dispatch c name ps ch s).1
  unfolding Concrete.dispatch Concrete.not_found Echo.new Exit.new Ls.new Pwd.new Scp.new Uname.new
      Whoami.new
  dispatch-Grows c name ps ch s = if-Grows c (beq name (bytes "echo")) _ _ (Grows-refl c) (
      if-Grows c (beq name (bytes "exit")) _ _ (Grows-refl c) (
        if-Grows c (beq name (bytes "ls")) _ _ (file_system-Grows c) (
          if-Grows c (beq name (bytes "pwd")) _ _ (file_system-Grows c) (
            if-Grows c (beq name (bytes "scp")) _ _
              (scp_start-Grows (Scp.scan (argparse ps) none false) c ch s)
              (if-Grows c (beq name (bytes "uname")) _ _ (Grows-refl c) (
                if-Grows c (beq name (bytes "whoami")) _ _ (Grows-refl c) (
                  if-Grows c (beq name (bytes "cat")) _ _ (cat-Grows ps c ch s)
                    (Grows-refl c))))))))

  pub into_concrete_command-Grows :
      (p : PartialCommand) (c : ConnectionState) (ch : ChannelId) (s : S)
      → Grows c (into_concrete_command p c ch s).1
  unfolding into_concrete_command Concrete.new
  into_concrete_command-Grows p c ch s = elim (Option-cases p.exec) [
    | inl nothing ↦ rw nothing (Grows-refl c)
    | inr (name, e) ↦ rw e (dispatch-Grows c name (map from_utf8_lossy p.params) ch s)
  ]

  module _ ⦃nom : Nom⦄ where
    abbrev TurnGrows : ConnectionState → Scp.Turn S → Type 0
    TurnGrows c Scp.rejected = Unit
    TurnGrows c (Scp.going x c' s) = Grows c c'
    TurnGrows c (Scp.starved x c' s) = Grows c c'

    on_message-TurnGrows :
        (r : IResult Receive) (x : Scp.Scp) (c : ConnectionState) (ch : ChannelId) (s : S)
        → TurnGrows c (Scp.on_message r x c ch s)
    unfolding Scp.on_message
    on_message-TurnGrows (err e) x c ch s = tt
    on_message-TurnGrows (ok (rest, m)) x c ch s = Grows-refl c

    turn_in-TurnGrows :
        (st : Scp.State) (x : Scp.Scp) (c : ConnectionState) (ch : ChannelId) (s : S)
        → TurnGrows c (Scp.turn_in st x c ch s)
    unfolding Scp.turn_in
    turn_in-TurnGrows Scp.waiting x c ch s = on_message-TurnGrows (parse x.pending_data) x c ch s
    turn_in-TurnGrows (Scp.receiving_file size path) x c ch s =
        elim (Bool-cases (ltb (length x.pending_data) size)) [
          | inl short ↦ rw short (Grows-refl c)
          | inr all ↦ rw all (push-Grows _ c)
        ]
    turn_in-TurnGrows Scp.awaiting_separator x c ch s =
        elim (Bool-cases (Scp.starts_with_zero x.pending_data)) [
          | inl null ↦ rw null (Grows-refl c)
          | inr other ↦ rw other (Grows-refl c)
        ]

    after_turn-Grows :
        (go : Scp.Scp → ConnectionState → S → Ran Scp.Scp S) (c : ConnectionState) (s : S)
        (r : Scp.Turn S)
        → TurnGrows c r
        → ((x : Scp.Scp) (c : ConnectionState) (s : S) → Grows c (go x c s).1)
        → Grows c (Scp.after_turn go c s r).1
    unfolding Scp.after_turn
    after_turn-Grows go c s Scp.rejected g k = Grows-refl c
    after_turn-Grows go c s (Scp.going x c' s') g k = Grows-trans g (k x c' s')
    after_turn-Grows go c s (Scp.starved x c' s') g k = g

    scp_loop-Grows :
        (n : ℕ) (x : Scp.Scp) (c : ConnectionState) (ch : ChannelId) (s : S)
        → Grows c (Scp.loop n x c ch s).1
    unfolding Scp.loop
    scp_loop-Grows zero x c ch s = Grows-refl c
    scp_loop-Grows (suc n) x c ch s = elim (Bool-cases (is_empty x.pending_data)) [
      | inl done ↦ rw (done, Scp.loop) (Grows-refl c)
      | inr more ↦
          rw (more, Scp.loop)
            (after_turn-Grows (λ (y : Scp.Scp) (d : ConnectionState) (u : S). Scp.loop n y d ch u) c
              s (Scp.turn_in x.state x c ch s) (turn_in-TurnGrows x.state x c ch s)
              (λ y d u. scp_loop-Grows n y d ch u))
    ]

    pub stdin-Grows :
        (cmd : ConcreteCommand) (c : ConnectionState) (ch : ChannelId) (input : Bytes) (s : S)
        → Grows c (Concrete.stdin cmd c ch input s).1
    unfolding Concrete.stdin Echo.stdin Exit.stdin Ls.stdin Pwd.stdin Scp.stdin Uname.stdin
        Whoami.stdin Cat.stdin
    stdin-Grows (Concrete.echo x) c ch input s = Grows-refl c
    stdin-Grows (Concrete.exit_ x) c ch input s = Grows-refl c
    stdin-Grows (Concrete.ls x) c ch input s = Grows-refl c
    stdin-Grows (Concrete.pwd x) c ch input s = Grows-refl c
    stdin-Grows (Concrete.scp x) c ch input s =
        scp_loop-Grows _ (record x { pending_data = x.pending_data ++ input }) c ch s
    stdin-Grows (Concrete.uname x) c ch input s = Grows-refl c
    stdin-Grows (Concrete.whoami x) c ch input s = Grows-refl c
    stdin-Grows (Concrete.cat x) c ch input s =
        cat_run-Grows x.remaining_params x.status c ch (t.data_to ch input s)
