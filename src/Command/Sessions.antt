-- ===== src/Command/Sessions.antt =====
-- The commands are the same over every kind of session: a map between sessions that commutes with
-- output carries a run over the one to the run over the other.
use pisshoff.Base.{
  ℕ, Bool, true, false, List, [], ◌∷◌, map, Option, none, some, Bytes, bytes, beq, ◌≡◌, refl, ap,
  sym, if◌then◌else◌, Option-cases, Bool-cases, inl, inr,
}
use pisshoff.Std.Utf8.{from_utf8_lossy}
use pisshoff.Nom.{Nom}
use pisshoff.Session.{ThrusshSession, ChannelId, IsMorphism, either}
use pisshoff.Connection.{ConnectionState}
use pisshoff.Command.Results.{Ran, argparse}
use pisshoff.Command.Echo
use pisshoff.Command.Exit
use pisshoff.Command.Ls
use pisshoff.Command.Pwd
use pisshoff.Command.Scp
use pisshoff.Command.Uname
use pisshoff.Command.Whoami
use pisshoff.Command.Cat
use pisshoff.Command.Concrete as Concrete
use pisshoff.Command.Concrete.{PartialCommand, ConcreteCommand, into_concrete_command, wrap}

-- The same result over the other session.
abbrev pub carry : {C S T : Type 0} → (S → T) → Ran C S → Ran C T
carry f (r, c, s) = (r, c, f s)

module _ {S T : Type 0} ⦃a : ThrusshSession S⦄ ⦃b : ThrusshSession T⦄ (f : S → T)
    (h : IsMorphism {S = S} {T = T} f) where
  echo-carry :
      (c : ConnectionState) (ps : List Bytes) (ch : ChannelId) (s : S)
      → Echo.new c ps ch (f s) ≡ carry f (Echo.new c ps ch s)
  unfolding Echo.new
  echo-carry c ps ch s = rw (h.redirected_lem s, h.data_lem) refl

  unless-carry :
      (e : Bool) (ch : ChannelId) (d : Bytes) (s : S)
      → (if e then f s else b.data_to ch d (f s)) ≡ f (if e then s else a.data_to ch d s)
  unless-carry true ch d s = refl
  unless-carry false ch d s = sym (h.data_lem ch d s)

  ls-carry :
      (c : ConnectionState) (ps : List Bytes) (ch : ChannelId) (s : S)
      → Ls.new c ps ch (f s) ≡ carry f (Ls.new c ps ch s)
  unfolding Ls.new
  ls-carry c ps ch s = rw unless-carry refl

  pwd-carry :
      (c : ConnectionState) (ps : List Bytes) (ch : ChannelId) (s : S)
      → Pwd.new c ps ch (f s) ≡ carry f (Pwd.new c ps ch s)
  unfolding Pwd.new
  pwd-carry c ps ch s = rw h.data_lem refl

  whoami-carry :
      (c : ConnectionState) (ps : List Bytes) (ch : ChannelId) (s : S)
      → Whoami.new c ps ch (f s) ≡ carry f (Whoami.new c ps ch s)
  unfolding Whoami.new
  whoami-carry c ps ch s = rw h.data_lem refl

  uname-carry :
      (c : ConnectionState) (ps : List Bytes) (ch : ChannelId) (s : S)
      → Uname.new c ps ch (f s) ≡ carry f (Uname.new c ps ch s)
  unfolding Uname.new
  uname-carry c ps ch s = rw h.data_lem refl

  cat_run-carry :
      (ps : List Bytes) (status : ℕ) (c : ConnectionState) (ch : ChannelId) (s : S)
      → Cat.run ps status c ch (f s) ≡ carry f (Cat.run ps status c ch s)
  unfolding Cat.run
  cat_run-carry [] status c ch s = refl
  cat_run-carry (p ∷ ps) status c ch s = elim (Bool-cases (beq p (bytes "-"))) [
    | inl dash ↦ rw (dash, Cat.run) refl
    | inr file ↦ rw (file, Cat.run, ← h.data_lem) (cat_run-carry ps _ _ ch _)
  ]

  cat-carry :
      (c : ConnectionState) (ps : List Bytes) (ch : ChannelId) (s : S)
      → Cat.new c ps ch (f s) ≡ carry f (Cat.new c ps ch s)
  unfolding Cat.new
  cat-carry c [] ch s = refl
  cat-carry c (p ∷ ps) ch s = cat_run-carry (p ∷ ps) 0 c ch s

  scp_start-carry :
      (r : Option (Option Bytes × Bool)) (c : ConnectionState) (ch : ChannelId) (s : S)
      → Scp.start r c ch (f s) ≡ carry f (Scp.start r c ch s)
  unfolding Scp.start
  scp_start-carry none c ch s = rw h.data_lem refl
  scp_start-carry (some (none, transfer)) c ch s = rw h.data_lem refl
  scp_start-carry (some (some path, true)) c ch s = rw h.data_lem refl
  scp_start-carry (some (some path, false)) c ch s = rw h.data_lem refl

  scp-carry :
      (c : ConnectionState) (ps : List Bytes) (ch : ChannelId) (s : S)
      → Scp.new c ps ch (f s) ≡ carry f (Scp.new c ps ch s)
  unfolding Scp.new
  scp-carry c ps ch s = scp_start-carry (Scp.scan (argparse ps) none false) c ch s

  not_found-carry :
      (c : ConnectionState) (name : Bytes) (ch : ChannelId) (s : S)
      → Concrete.not_found c name ch (f s) ≡ carry f (Concrete.not_found c name ch s)
  unfolding Concrete.not_found
  not_found-carry c name ch s = rw h.data_lem refl

  if-carry :
      {C : Type 0} (e : Bool) {x y : Ran C T} {v w : Ran C S}
      → x ≡ carry f v
      → y ≡ carry f w
      → (if e then x else y) ≡ carry f (if e then v else w)
  if-carry true k l = k
  if-carry false k l = l

  wrap-carry :
      {C : Type 0} (g : C → ConcreteCommand) {x : Ran C T} {v : Ran C S}
      → x ≡ carry f v
      → wrap g x ≡ carry f (wrap g v)
  wrap-carry g k = ap (wrap g) k

  dispatch-carry :
      (c : ConnectionState) (name : Bytes) (ps : List Bytes) (ch : ChannelId) (s : S)
      → Concrete.dispatch c name ps ch (f s) ≡ carry f (Concrete.dispatch c name ps ch s)
  unfolding Concrete.dispatch Exit.new
  dispatch-carry c name ps ch s =
      if-carry (beq name (bytes "echo")) (wrap-carry Concrete.echo (echo-carry c ps ch s)) (
        if-carry (beq name (bytes "exit")) refl (
          if-carry (beq name (bytes "ls")) (wrap-carry Concrete.ls (ls-carry c ps ch s)) (
            if-carry (beq name (bytes "pwd")) (wrap-carry Concrete.pwd (pwd-carry c ps ch s)) (
              if-carry (beq name (bytes "scp")) (wrap-carry Concrete.scp (scp-carry c ps ch s)) (
                if-carry (beq name (bytes "uname"))
                  (wrap-carry Concrete.uname (uname-carry c ps ch s))
                  (if-carry (beq name (bytes "whoami"))
                    (wrap-carry Concrete.whoami (whoami-carry c ps ch s))
                    (if-carry (beq name (bytes "cat"))
                      (wrap-carry Concrete.cat (cat-carry c ps ch s))
                      (not_found-carry c name ch s))))))))

  pub into_concrete_command-carry :
      (p : PartialCommand) (c : ConnectionState) (ch : ChannelId) (s : S)
      → into_concrete_command p c ch (f s) ≡ carry f (into_concrete_command p c ch s)
  unfolding into_concrete_command Concrete.new
  into_concrete_command-carry p c ch s = elim (Option-cases p.exec) [
    | inl nothing ↦ rw nothing refl
    | inr (name, e) ↦ rw e (dispatch-carry c name (map from_utf8_lossy p.params) ch s)
  ]

  module _ ⦃nom : Nom⦄ where
    carry_turn : Scp.Turn S → Scp.Turn T
    carry_turn Scp.rejected = Scp.rejected
    carry_turn (Scp.going x c s) = Scp.going x c (f s)
    carry_turn (Scp.starved x c s) = Scp.starved x c (f s)
