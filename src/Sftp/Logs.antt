-- ===== src/Sftp/Logs.antt =====
-- The sftp subsystem only adds to the log of its connection.
use pisshoff.Base.{
  ℕ, zero, suc, ◌++◌, Option, Bytes, ok, err, Outcome, returns, panics, ◌≡◌, subst, length,
}
use pisshoff.Nom.{Nom, IResult, incomplete, error, eof}
use pisshoff.Session.{ChannelId, Session}
use pisshoff.Connection.{ConnectionState}
use pisshoff.Connection.Grows.{Grows, Grows-refl, Grows-trans, push-Grows}
use pisshoff.Sftp.Packets as Packets
use pisshoff.Sftp.Packets.{
  PacketType, WirePacket, parse, parse_text, parse_write, parse_stat, parse_open, parse_real_path,
}
use pisshoff.Sftp.Branches.{Where, Where-unwrapped, Where-or_panic}
use pisshoff.Sftp.Responses.{Response}
use pisshoff.Sftp.{
  Sftp, Uuids, get, Handled, respond, on_handled, answer, with_session, and_again, ended, on_type,
  on_packet, on_parsed, loop, data_received,
}

abbrev Adds : ConnectionState → Sftp × ConnectionState × Option Response → Type 0
Adds c (x, c', r) = Grows c c'

abbrev Leaves : ConnectionState → Sftp × ConnectionState × Session → Type 0
Leaves c (x, c', s) = Grows c c'

module _ ⦃nom : Nom⦄ ⦃uuids : Uuids⦄ where
  respond-Grows :
      (t : PacketType) (d : Bytes) (x : Sftp) (c : ConnectionState)
      → Where (Adds c) (respond t d x c)
  unfolding respond
  respond-Grows Packets.stat d x c = Where-unwrapped (Adds c) (parse_stat d) _ (λ p. Grows-refl c)
  respond-Grows Packets.lstat d x c = Where-unwrapped (Adds c) (parse_stat d) _ (λ p. Grows-refl c)
  respond-Grows Packets.open_ d x c = Where-unwrapped (Adds c) (parse_open d) _ (λ p. Grows-refl c)
  respond-Grows Packets.fset_stat d x c =
      Where-unwrapped (Adds c) (parse_text d) _ (λ p. Grows-refl c)
  respond-Grows Packets.set_stat d x c =
      Where-unwrapped (Adds c) (parse_text d) _ (λ p. Grows-refl c)
  respond-Grows Packets.write d x c = Where-unwrapped (Adds c) (parse_write d) _ (λ p.
      Where-or_panic (Adds c) (uuids.from_str p.handle_text) _
        (λ id. Where-or_panic (Adds c) (get id x.open_files) _ (λ path. push-Grows _ c)))
  respond-Grows Packets.close d x c = Where-unwrapped (Adds c) (parse_text d) _ (λ text.
      Where-or_panic (Adds c) (uuids.from_str text) _
        (λ id. Where-or_panic (Adds c) (get id x.open_files) _ (λ path. Grows-refl c)))
  respond-Grows Packets.real_path d x c =
      Where-unwrapped (Adds c) (parse_real_path d) _ (λ p. Grows-refl c)
  respond-Grows Packets.mkdir d x c =
      Where-unwrapped (Adds c) (parse_text d) _ (λ p. push-Grows _ c)
  respond-Grows _ d x c = Grows-refl c

  with_session-Leaves :
      (x : Sftp) (c c' : ConnectionState) (o : Outcome Session)
      → Grows c c'
      → Where (Leaves c) (with_session x c' o)
  with_session-Leaves x c c' (returns s) g = g
  with_session-Leaves x c c' panics g = tt

  on_handled-Leaves :
      (id : ℕ) (ch : ChannelId) (s : Session) (c : ConnectionState) (h : Handled)
      → Where (Adds c) h
      → Where (Leaves c) (on_handled id ch s h)
  unfolding on_handled
  on_handled-Leaves id ch s c panics g = tt
  on_handled-Leaves id ch s c (returns (x, c', r)) g =
      with_session-Leaves x c c' (answer id ch s r) g

  on_type-Leaves :
      (t : PacketType) (id : ℕ) (d : Bytes) (x : Sftp) (c : ConnectionState) (ch : ChannelId)
      (s : Session)
      → Where (Leaves c) (on_type t id d x c ch s)
  unfolding on_type
  on_type-Leaves Packets.init id d x c ch s = with_session-Leaves x c c _ (Grows-refl c)
  on_type-Leaves t id d x c ch s =
      on_handled-Leaves id ch s c (respond t d x c) (respond-Grows t d x c)

  and_again-Leaves :
      (again : Sftp → ConnectionState → Session → Outcome (Sftp × ConnectionState × Session))
      (c : ConnectionState)
      → (o : Outcome (Sftp × ConnectionState × Session)) → Where (Leaves c) o
      → ((x : Sftp) (c : ConnectionState) (s : Session) → Where (Leaves c) (again x c s))
      → Where (Leaves c) (and_again again o)
  and_again-Leaves again c panics g h = tt
  and_again-Leaves again c (returns (x, c', s)) g h = Where-map (again x c' s) (h x c' s)
    where
      Where-map :
          (o : Outcome (Sftp × ConnectionState × Session))
          → Where (Leaves c') o
          → Where (Leaves c) o
      Where-map panics k = tt
      Where-map (returns r) k = Grows-trans g k

  on_parsed-Leaves :
      (again : Sftp → ConnectionState → Session → Outcome (Sftp × ConnectionState × Session))
      (r : IResult WirePacket)
      → (x : Sftp) (c : ConnectionState) (ch : ChannelId) (s : Session)
      → ((x : Sftp) (c : ConnectionState) (s : Session) → Where (Leaves c) (again x c s))
      → Where (Leaves c) (on_parsed again r x c ch s)
  unfolding on_parsed on_packet
  on_parsed-Leaves again (ok (rest, p)) x c ch s h =
      and_again-Leaves again c (on_packet p (record x { pending_data = rest }) c ch s)
        (on_type-Leaves p.typ p.request_id p.content (record x { pending_data = rest }) c ch s) h
  on_parsed-Leaves again (err incomplete) x c ch s h = Grows-refl c
  on_parsed-Leaves again (err (error eof)) x c ch s h = Grows-refl c
  on_parsed-Leaves again (err _) x c ch s h = Grows-refl c

  loop-Leaves :
      (n : ℕ) (x : Sftp) (c : ConnectionState) (ch : ChannelId) (s : Session)
      → Where (Leaves c) (loop n x c ch s)
  unfolding loop
  loop-Leaves zero x c ch s = Grows-refl c
  loop-Leaves (suc n) x c ch s =
      on_parsed-Leaves (λ x' c' s'. loop n x' c' ch s') (parse x.pending_data) x c ch s
        (λ x' c' s'. loop-Leaves n x' c' ch s')

  ended-Leaves :
      (ch : ChannelId) (c : ConnectionState) (o : Outcome (Sftp × ConnectionState × Session))
      → Where (Leaves c) o
      → Where (Leaves c) (ended ch o)
  ended-Leaves ch c (returns r) g = g
  ended-Leaves ch c panics g = tt

  -- Whatever the client sends to an sftp channel, where the handler returns, no event of the audit
  -- log is lost or changed, and new events stand behind those that were there.
  pub data_received-kept :
      (x x' : Sftp) (c c' : ConnectionState) (ch : ChannelId) (input : Bytes) (s s' : Session)
      → data_received x c ch input s ≡ returns (x', c', s')
      → Grows c c'
  unfolding data_received
  data_received-kept x x' c c' ch input s s' e = subst (Where (Leaves c)) e (
      ended-Leaves ch c _ (
        loop-Leaves (suc (length (x.pending_data ++ input)))
          (record x { pending_data = x.pending_data ++ input }) c ch s))
