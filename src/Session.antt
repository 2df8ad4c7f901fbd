-- ===== src/Session.antt =====
-- `ThrusshSession` of pisshoff-server/src/server.rs: where a command writes its output.
use pisshoff.Base.{ℕ, Bool, true, false, List, [], ◌∷◌, ◌++◌, Bytes, ◌≡◌, refl}

abbrev pub ChannelId : Type 0
ChannelId = ℕ

pub record ThrusshSession (S : Type 0) : Type 0 where
  pub data_to : ChannelId → Bytes → S → S
  pub redirected : S → Bool

-- The calls that the server makes of thrussh's `Session`, in order.
pub data SessionCall : Type 0 where
  data_call : ChannelId → Bytes → SessionCall
  exit_status_request : ChannelId → ℕ → SessionCall
  close_call : ChannelId → SessionCall
  channel_success : ChannelId → SessionCall
  channel_failure : ChannelId → SessionCall
  flush_pending : ChannelId → SessionCall

abbrev pub Session : Type 0
Session = List SessionCall

infixl 20 ◌▸◌
abbrev pub ◌▸◌ : Session → SessionCall → Session
s ▸ c = s ++ c ∷ []

instance abbrev pub session : ThrusshSession Session
session = record { data_to = λ ch d s. s ▸ data_call ch d; redirected = λ s. false }

pub record StdoutCaptureSession : Type 0 where
  pub out : Bytes

instance abbrev pub stdout_capture : ThrusshSession StdoutCaptureSession
stdout_capture = record { data_to = λ ch d s. record { out = s.out ++ d }; redirected = λ s. true }

pub data EitherSession (A B : Type 0) : Type 0 where
  left : A → EitherSession A B
  right : B → EitherSession A B

module _ {A B : Type 0} ⦃a : ThrusshSession A⦄ ⦃b : ThrusshSession B⦄ where
  abbrev pub either_data : ChannelId → Bytes → EitherSession A B → EitherSession A B
  either_data ch d (left s) = left (a.data_to ch d s)
  either_data ch d (right s) = right (b.data_to ch d s)

  abbrev pub either_redirected : EitherSession A B → Bool
  either_redirected (left s) = a.redirected s
  either_redirected (right s) = b.redirected s

  instance abbrev pub either : ThrusshSession (EitherSession A B)
  either = record { data_to = either_data; redirected = either_redirected }

-- A map between sessions that commutes with what a command can do to one.
pub record IsMorphism {S T : Type 0} ⦃s : ThrusshSession S⦄ ⦃t : ThrusshSession T⦄ (f : S → T)
    : Type 0 where
  pub data_lem : (ch : ChannelId) (d : Bytes) (x : S) → f (s.data_to ch d x) ≡ t.data_to ch d (f x)
  pub redirected_lem : (x : S) → t.redirected (f x) ≡ s.redirected x

module _ {A B : Type 0} ⦃a : ThrusshSession A⦄ ⦃b : ThrusshSession B⦄ where
  pub left-IsMorphism : IsMorphism {S = A} {T = EitherSession A B} left
  left-IsMorphism = record { data_lem = λ ch d x. refl; redirected_lem = λ x. refl }

  pub right-IsMorphism : IsMorphism {S = B} {T = EitherSession A B} right
  right-IsMorphism = record { data_lem = λ ch d x. refl; redirected_lem = λ x. refl }
