-- ===== src/Sftp/Pieces.antt =====
-- By the laws of nom, it does not matter to the sftp subsystem how its data are split.
use pisshoff.Base.{
  ℕ, zero, suc, ◌<◌, ◌++◌, Option, some, none, Bytes, ok, err, Outcome, returns, panics, ◌≡◌, refl,
  sym, ap, ◌∙◌, subst, arith, length, length-append, append_assoc,
}
use pisshoff.Nom.{Nom, IResult, error, eof}
use pisshoff.Nom.Laws.{NomLaws}
use pisshoff.Session.{ChannelId, Session}
use pisshoff.Connection.{ConnectionState}
use pisshoff.Sftp.Packets as Packets
use pisshoff.Sftp.Packets.{
  PacketType, WirePacket, parse, parse_text, parse_write, parse_stat, parse_open, parse_real_path,
}
use pisshoff.Sftp.Packets.Pieces.{parse-Followed, parse-shorter}
use pisshoff.Nom.Pieces.{Followed}
use pisshoff.Sftp.Branches.{Where}
use pisshoff.Sftp.Termination.{Waits, loop-fuel, on_type-Waits}
use pisshoff.Sftp.{
  Sftp, Uuids, get, Handled, unwrapped, or_panic, respond, on_handled, answer, with_session,
  and_again, on_type, on_packet, on_parsed, loop, ended, data_received,
}

abbrev mapped : {A B : Type 0} → (A → B) → Outcome A → Outcome B
mapped f (returns a) = returns (f a)
mapped f panics = panics

unwrapped-mapped :
    {A B C : Type 0} (h : B → C) (r : IResult A) (f : A → Outcome C) (g : A → Outcome B)
    → ((a : A) → f a ≡ mapped h (g a))
    → unwrapped r f ≡ mapped h (unwrapped r g)
unwrapped-mapped h (ok (rest, a)) f g e = e a
unwrapped-mapped h (err x) f g e = refl

or_panic-mapped :
    {A B C : Type 0} (h : B → C) (o : Option A) (f : A → Outcome C) (g : A → Outcome B)
    → ((a : A) → f a ≡ mapped h (g a))
    → or_panic o f ≡ mapped h (or_panic o g)
or_panic-mapped h (some a) f g e = e a
or_panic-mapped h none f g e = refl

-- With these data pending.
abbrev pending : {A : Type 0} → Bytes → Sftp × ConnectionState × A → Sftp × ConnectionState × A
pending d (x, c, r) = (record x { pending_data = d }, c, r)

module _ ⦃nom : Nom⦄ ⦃uuids : Uuids⦄ where
  respond-pending :
      (t : PacketType) (d e : Bytes) (x : Sftp) (c : ConnectionState)
      → respond t d (record x { pending_data = e }) c ≡ mapped (pending e) (respond t d x c)
  unfolding respond
  respond-pending Packets.stat d e x c = unwrapped-mapped (pending e) (parse_stat d) _ _ (λ p. refl)
  respond-pending Packets.lstat d e x c =
      unwrapped-mapped (pending e) (parse_stat d) _ _ (λ p. refl)
  respond-pending Packets.open_ d e x c =
      unwrapped-mapped (pending e) (parse_open d) _ _ (λ p. refl)
  respond-pending Packets.fset_stat d e x c =
      unwrapped-mapped (pending e) (parse_text d) _ _ (λ p. refl)
  respond-pending Packets.set_stat d e x c =
      unwrapped-mapped (pending e) (parse_text d) _ _ (λ p. refl)
  respond-pending Packets.write d e x c = unwrapped-mapped (pending e) (parse_write d) _ _ (λ p.
      or_panic-mapped (pending e) (uuids.from_str p.handle_text) _ _
        (λ id. or_panic-mapped (pending e) (get id x.open_files) _ _ (λ path. refl)))
  respond-pending Packets.close d e x c = unwrapped-mapped (pending e) (parse_text d) _ _ (λ text.
      or_panic-mapped (pending e) (uuids.from_str text) _ _
        (λ id. or_panic-mapped (pending e) (get id x.open_files) _ _ (λ path. refl)))
  respond-pending Packets.real_path d e x c =
      unwrapped-mapped (pending e) (parse_real_path d) _ _ (λ p. refl)
  respond-pending Packets.mkdir d e x c =
      unwrapped-mapped (pending e) (parse_text d) _ _ (λ p. refl)
  respond-pending _ d e x c = refl

  with_session-pending :
      (e : Bytes) (x : Sftp) (c : ConnectionState) (o : Outcome Session)
      → with_session (record x { pending_data = e }) c o ≡ mapped (pending e) (with_session x c o)
  with_session-pending e x c (returns s) = refl
  with_session-pending e x c panics = refl

  on_handled-pending :
      (e : Bytes) (id : ℕ) (ch : ChannelId) (s : Session) (h : Handled)
      → on_handled id ch s (mapped (pending e) h) ≡ mapped (pending e) (on_handled id ch s h)
  unfolding on_handled
  on_handled-pending e id ch s panics = refl
  on_handled-pending e id ch s (returns (x, c, r)) = with_session-pending e x c (answer id ch s r)

  on_type-pending :
      (t : PacketType) (id : ℕ) (d e : Bytes) (x : Sftp) (c : ConnectionState) (ch : ChannelId)
      (s : Session)
      → on_type t id d (record x { pending_data = e }) c ch s
        ≡ mapped (pending e) (on_type t id d x c ch s)
  unfolding on_type
  on_type-pending Packets.init id d e x c ch s = with_session-pending e x c _
  on_type-pending t id d e x c ch s =
      ap (on_handled id ch s) (respond-pending t d e x c)
      ∙ on_handled-pending e id ch s (respond t d x c)

  -- Whole packets, and then nothing or the beginning of another one.
  pub data AreWhole : Bytes → Type 0 where
    ends : {d : Bytes} → parse d ≡ err (error eof) → AreWhole d
    reads : {d rest : Bytes} {p : WirePacket} → parse d ≡ ok (rest, p) → AreWhole rest → AreWhole d

  -- What `data` does but for its last calls: the loop, with these data behind those that are pending.
  abbrev pub handle :
      Sftp
      → ConnectionState
      → ChannelId
      → Bytes
      → Session
      → Outcome (Sftp × ConnectionState × Session)
  handle x c ch input s =
      let d = x.pending_data ++ input in
      loop (suc (length d)) (record x { pending_data = d }) c ch s

  -- Behind a packet, where the data that are left are split.
  again-pieces :
      (f : Sftp → ConnectionState → Session → Outcome (Sftp × ConnectionState × Session))
      (g k : Sftp → ConnectionState → Session → Outcome (Sftp × ConnectionState × Session))
      (rest e : Bytes) (o : Outcome (Sftp × ConnectionState × Session))
      → Where (Waits rest) o
      → ((x : Sftp) (c : ConnectionState) (s : Session)
          → f (record x { pending_data = e }) c s
            ≡ and_again k (g (record x { pending_data = rest }) c s))
      → and_again f (mapped (pending e) o) ≡ and_again k (and_again g o)
  again-pieces f g k rest e panics w h = refl
  again-pieces f g k rest e (returns (x, c, s)) w h =
      subst
        (λ (d : Bytes).
          f (record x { pending_data = e }) c s
          ≡ and_again k (g (record x { pending_data = d }) c s))
        (sym w) (h x c s)

  module _ (laws : NomLaws nom) where
    loop-pieces :
        (d t : Bytes) (n m : ℕ) (x : Sftp) (c : ConnectionState) (ch : ChannelId) (s : Session)
        → AreWhole d
        → length d < n
        → length (d ++ t) < m
        → loop m (record x { pending_data = d ++ t }) c ch s
          ≡ and_again
              (λ x' c' s'. handle x' c' ch t s')
              (loop n (record x { pending_data = d }) c ch s)
    unfolding loop on_parsed on_packet
    loop-pieces d t zero m x c ch s w l k = absurd (omega arith)
    loop-pieces d t (suc n) zero x c ch s w l k = absurd (omega arith)
    loop-pieces d t (suc n) (suc m) x c ch s (ends e) l k =
        loop-fuel laws (suc m) (suc (length (d ++ t))) (record x { pending_data = d ++ t }) c ch s k
          (omega arith)
        ∙ rw e refl
    loop-pieces d t (suc n) (suc m) x c ch s (reads {rest = rest} {p = p} e w) l k =
        let more = subst (λ r. Followed t r (parse (d ++ t))) e (parse-Followed laws d t) in
        let less = parse-shorter laws d rest p e in
        let y : Sftp = record x { pending_data = rest } in
        rw (more, e)
          (ap (and_again (λ x' c' s'. loop m x' c' ch s'))
              (on_type-pending p.typ p.request_id p.content (rest ++ t) y c ch s)
            ∙ again-pieces (λ x' c' s'. loop m x' c' ch s') (λ x' c' s'. loop n x' c' ch s')
                (λ x' c' s'. handle x' c' ch t s') rest (rest ++ t)
                (on_type p.typ p.request_id p.content y c ch s)
                (on_type-Waits p.typ p.request_id p.content y c ch s)
                (λ x' c' s'.
                  loop-pieces rest t n m x' c' ch s' w (omega (arith, less))
                    (omega (arith, less, length-append rest t, length-append d t))))

    -- By the laws of nom, it does not matter how data are split: where what is pending and the first
    -- part are whole packets, with nothing or the beginning of another one behind them, both parts at
    -- once are handled as the first part is and then, with what is left of it, the second.
    pub data_received-pieces :
        (x : Sftp) (c : ConnectionState) (ch : ChannelId) (a b : Bytes) (s : Session)
        → AreWhole (x.pending_data ++ a)
        → data_received x c ch (a ++ b) s
          ≡ ended ch (and_again (λ x' c' s'. handle x' c' ch b s') (handle x c ch a s))
    unfolding data_received
    data_received-pieces x c ch a b s w =
        let d = x.pending_data ++ a in
        ap (λ (e : Bytes). ended ch (loop (suc (length e)) (record x { pending_data = e }) c ch s))
          (sym (append_assoc x.pending_data a b))
        ∙ ap (ended ch) (
            loop-pieces d b (suc (length d)) (suc (length (d ++ b))) x c ch s w (omega arith)
              (omega arith))
