-- ===== src/Sftp/Termination.antt =====
-- The loop of the sftp subsystem ends, by the laws of nom.
use pisshoff.Base.{
  ℕ, zero, suc, ◌+◌, ◌≤◌, ◌<◌, ◌-◌, [], ◌∷◌, ◌⊎◌, inl, inr, Option, Bytes, ok, err, Outcome,
  returns, panics, ◌≡◌, refl, arith, length,
}
use pisshoff.Nom.{Nom, IResult, incomplete, error, eof}
use pisshoff.Nom.Laws.{NomLaws}
use pisshoff.Nom.Lengths.{Within}
use pisshoff.Session.{ChannelId, Session}
use pisshoff.Connection.{ConnectionState}
use pisshoff.Sftp.Packets as Packets
use pisshoff.Sftp.Packets.{
  PacketType, WirePacket, parse, parse_text, parse_write, parse_stat, parse_open, parse_real_path,
}
use pisshoff.Sftp.Packets.Lengths.{parse-Within, parse-nil}
use pisshoff.Sftp.Responses.{Response}
use pisshoff.Sftp.Branches.{Where, Where-unwrapped, Where-or_panic}
use pisshoff.Sftp.{
  Sftp, Uuids, get, Handled, respond, on_handled, answer, with_session, and_again, on_type,
  on_packet, on_parsed, loop,
}

-- A packet is handled without a look at the data behind it.
abbrev Pends : Bytes → Sftp × ConnectionState × Option Response → Type 0
Pends d (x, c, r) = x.pending_data ≡ d

abbrev pub Waits : Bytes → Sftp × ConnectionState × Session → Type 0
Waits d (x, c, s) = x.pending_data ≡ d

pub length-cases : (d : Bytes) → (d ≡ []) ⊎ (length d ≡ suc (length d - 1))
length-cases [] = inl refl
length-cases (a ∷ d) = inr (omega arith)

abbrev pub Again : Type 0
Again = Sftp → ConnectionState → Session → Outcome (Sftp × ConnectionState × Session)

module _ ⦃nom : Nom⦄ ⦃uuids : Uuids⦄ where
  respond-Pends :
      (t : PacketType) (d : Bytes) (x : Sftp) (c : ConnectionState)
      → Where (Pends x.pending_data) (respond t d x c)
  unfolding respond
  respond-Pends Packets.stat d x c =
      Where-unwrapped (Pends x.pending_data) (parse_stat d) _ (λ p. refl)
  respond-Pends Packets.lstat d x c =
      Where-unwrapped (Pends x.pending_data) (parse_stat d) _ (λ p. refl)
  respond-Pends Packets.open_ d x c =
      Where-unwrapped (Pends x.pending_data) (parse_open d) _ (λ p. refl)
  respond-Pends Packets.fset_stat d x c =
      Where-unwrapped (Pends x.pending_data) (parse_text d) _ (λ p. refl)
  respond-Pends Packets.set_stat d x c =
      Where-unwrapped (Pends x.pending_data) (parse_text d) _ (λ p. refl)
  respond-Pends Packets.write d x c = Where-unwrapped (Pends x.pending_data) (parse_write d) _ (λ p.
      Where-or_panic (Pends x.pending_data) (uuids.from_str p.handle_text) _
        (λ id. Where-or_panic (Pends x.pending_data) (get id x.open_files) _ (λ path. refl)))
  respond-Pends Packets.close d x c =
      Where-unwrapped (Pends x.pending_data) (parse_text d) _ (λ text.
        Where-or_panic (Pends x.pending_data) (uuids.from_str text) _
          (λ id. Where-or_panic (Pends x.pending_data) (get id x.open_files) _ (λ path. refl)))
  respond-Pends Packets.real_path d x c =
      Where-unwrapped (Pends x.pending_data) (parse_real_path d) _ (λ p. refl)
  respond-Pends Packets.mkdir d x c =
      Where-unwrapped (Pends x.pending_data) (parse_text d) _ (λ p. refl)
  respond-Pends _ d x c = refl

  with_session-Waits :
      (d : Bytes) (x : Sftp) (c : ConnectionState) (o : Outcome Session)
      → x.pending_data ≡ d
      → Where (Waits d) (with_session x c o)
  with_session-Waits d x c (returns s) g = g
  with_session-Waits d x c panics g = tt

  on_handled-Waits :
      (d : Bytes) (id : ℕ) (ch : ChannelId) (s : Session) (h : Handled)
      → Where (Pends d) h
      → Where (Waits d) (on_handled id ch s h)
  unfolding on_handled
  on_handled-Waits d id ch s panics g = tt
  on_handled-Waits d id ch s (returns (x, c, r)) g = with_session-Waits d x c (answer id ch s r) g

  pub on_type-Waits :
      (t : PacketType) (id : ℕ) (d : Bytes) (x : Sftp) (c : ConnectionState) (ch : ChannelId)
      (s : Session)
      → Where (Waits x.pending_data) (on_type t id d x c ch s)
  unfolding on_type
  on_type-Waits Packets.init id d x c ch s = with_session-Waits x.pending_data x c _ refl
  on_type-Waits t id d x c ch s =
      on_handled-Waits x.pending_data id ch s (respond t d x c) (respond-Pends t d x c)

  and_again_cong :
      (f g : Again) (d : Bytes) (o : Outcome (Sftp × ConnectionState × Session))
      → Where (Waits d) o
      → ((x : Sftp) (c : ConnectionState) (s : Session) → x.pending_data ≡ d → f x c s ≡ g x c s)
      → and_again f o ≡ and_again g o
  and_again_cong f g d panics w h = refl
  and_again_cong f g d (returns (x, c, s)) w h = h x c s w

  on_parsed_cong :
      (f g : Again) (n : ℕ) (r : IResult WirePacket) (x : Sftp) (c : ConnectionState)
      (ch : ChannelId) (s : Session)
      → Within n r
      → ((x : Sftp) (c : ConnectionState) (s : Session)
          → length x.pending_data ≤ n
          → f x c s ≡ g x c s)
      → on_parsed f r x c ch s ≡ on_parsed g r x c ch s
  unfolding on_parsed on_packet
  on_parsed_cong f g n (ok (rest, p)) x c ch s w h =
      let y : Sftp = record x { pending_data = rest } in
      and_again_cong f g rest (on_packet p y c ch s)
        (on_type-Waits p.typ p.request_id p.content y c ch s) (λ x' c' s' e. h x' c' s' (rw e w))
  on_parsed_cong f g n (err incomplete) x c ch s w h = refl
  on_parsed_cong f g n (err (error eof)) x c ch s w h = refl
  on_parsed_cong f g n (err _) x c ch s w h = refl

  module _ (laws : NomLaws nom) where
    pub loop-fuel :
        (m n : ℕ) (x : Sftp) (c : ConnectionState) (ch : ChannelId) (s : Session)
        → length x.pending_data < m
        → length x.pending_data < n
        → loop m x c ch s ≡ loop n x c ch s
    unfolding loop on_parsed
    loop-fuel zero n x c ch s h k = absurd (omega arith)
    loop-fuel (suc m) zero x c ch s h k = absurd (omega arith)
    loop-fuel (suc m) (suc n) x c ch s h k = elim (length-cases x.pending_data) [
      | inl e ↦ rw (e, parse-nil laws) refl
      | inr e ↦
          on_parsed_cong (λ x' c' s'. loop m x' c' ch s') (λ x' c' s'. loop n x' c' ch s')
            (length x.pending_data - 1) (parse x.pending_data) x c ch s
            (parse-Within laws (length x.pending_data - 1) x.pending_data (omega (arith, e)))
            (λ x' c' s' l. loop-fuel m n x' c' ch s' (omega (arith, e)) (omega (arith, e)))
    ]

    -- By the laws of nom, the loop over the packets ends on any data: the fuel that it is given is
    -- enough, so with more fuel it has the same result.
    loop-more_fuel :
        (more : ℕ) (x : Sftp) (c : ConnectionState) (ch : ChannelId) (s : Session)
        → loop (suc (length x.pending_data) + more) x c ch s
          ≡ loop (suc (length x.pending_data)) x c ch s
    loop-more_fuel more x c ch s =
        loop-fuel (suc (length x.pending_data) + more) (suc (length x.pending_data)) x c ch s
          (omega arith) (omega arith)
