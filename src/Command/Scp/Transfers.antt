-- ===== src/Command/Scp/Transfers.antt =====
-- How scp receives the content of a file.
use pisshoff.Base.{
  ℕ, zero, suc, ◌+◌, ◌*◌, ◌≤◌, ◌<◌, true, false, Bytes, [], ◌∷◌, ◌++◌, ◌≡◌, refl, ap, arith, length,
  is_empty, ltb, take, drop, ◌∙◌, append_assoc, length-append,
}
use pisshoff.Nom.{Nom}
use pisshoff.Audit.{write_file}
use pisshoff.Session.{ThrusshSession, ChannelId}
use pisshoff.Connection.{ConnectionState, push}
use pisshoff.Command.Results.{Ran, read_stdin}
use pisshoff.Command.Scp.{
  Scp, waiting, receiving_file, awaiting_separator, going, turn_in, after_turn, loop, enough,
  success, stdin,
}

take-all : (xs ys : Bytes) → take (length xs) (xs ++ ys) ≡ xs
take-all [] ys = refl
take-all (x ∷ xs) ys = ap (◌∷◌ x) (take-all xs ys)

drop-all : (xs ys : Bytes) → drop (length xs) (xs ++ ys) ≡ ys
drop-all [] ys = refl
drop-all (x ∷ xs) ys = drop-all xs ys

nonempty : (xs : Bytes) (y : ℕ) (ys : Bytes) → is_empty (xs ++ y ∷ ys) ≡ false
nonempty [] y ys = refl
nonempty (x ∷ xs) y ys = refl

module _ ⦃nom : Nom⦄ {S : Type 0} ⦃t : ThrusshSession S⦄ where
  loop_starved :
      (n : ℕ) (p d : Bytes) (c : ConnectionState) (ch : ChannelId) (s : S) (size : ℕ) (path : Bytes)
      → let x : Scp = record { path = p; pending_data = d; state = receiving_file size path } in
        length d < size → loop n x c ch s ≡ (read_stdin x, c, s)
  unfolding loop after_turn turn_in
  loop_starved zero p d c ch s size path short = refl
  loop_starved (suc k) p [] c ch s size path short = refl
  loop_starved (suc k) p (y ∷ d) c ch s size path short =
      let waits : ltb (length (y ∷ d)) size ≡ true = ground arith in rw waits refl

  again : ℕ → ChannelId → Scp → ConnectionState → S → Ran Scp S
  again n ch x c s = loop n x c ch s

  loop_more :
      (n : ℕ) (x : Scp) (c : ConnectionState) (ch : ChannelId) (s : S)
      → is_empty x.pending_data ≡ false
      → loop (suc n) x c ch s ≡ after_turn (again n ch) c s (turn_in x.state x c ch s)
  unfolding loop again
  loop_more n x c ch s more = rw (more, loop) refl

  turn_file :
      (p content : Bytes) (c : ConnectionState) (ch : ChannelId) (s : S) (path : Bytes)
      → turn_in
          (receiving_file (length content) path)
          (record {
            path = p;
            pending_data = content ++ 0 ∷ [];
            state = receiving_file (length content) path;
          })
          c
          ch
          s
        ≡ going
            (record { path = p; pending_data = 0 ∷ []; state = awaiting_separator })
            (push (write_file (record { path = path; content = content })) c)
            s
  unfolding turn_in
  turn_file p content c ch s path =
      let arrived : ltb (length (content ++ 0 ∷ [])) (length content) ≡ false =
        ground (arith, length-append content (0 ∷ [])) in
      rw (arrived, take-all content (0 ∷ []), drop-all content (0 ∷ [])) refl

  loop_file :
      (n : ℕ) (p content : Bytes) (c : ConnectionState) (ch : ChannelId) (s : S) (path : Bytes)
      → 3 ≤ n
      → loop n
          (record {
            path = p;
            pending_data = content ++ 0 ∷ [];
            state = receiving_file (length content) path;
          })
          c
          ch
          s
        ≡ (
          read_stdin (record { path = p; pending_data = []; state = waiting }),
          push (write_file (record { path = path; content = content })) c,
          t.data_to ch success s,
        )
  unfolding loop after_turn turn_in again
  loop_file zero p content c ch s path h = absurd (omega arith)
  loop_file (suc zero) p content c ch s path h = absurd (omega arith)
  loop_file (suc (suc zero)) p content c ch s path h = absurd (omega arith)
  loop_file (suc (suc (suc k))) p content c ch s path h =
      loop_more (suc (suc k))
        (record {
          path = p;
          pending_data = content ++ 0 ∷ [];
          state = receiving_file (length content) path;
        })
        c ch s (nonempty content 0 [])
      ∙ ap (after_turn (again (suc (suc k)) ch) c s) (turn_file p content c ch s path)

  -- While a file has not arrived as a whole, its bytes are kept and nothing else happens. However it
  -- is split, the rest of it has then the effect that all of it would have had at once.
  pub stdin-split :
      (x : Scp) (c : ConnectionState) (ch : ChannelId) (a b : Bytes) (s : S) (size : ℕ)
      (path : Bytes)
      → x.state ≡ receiving_file size path
      → length (x.pending_data ++ a) < size
      → let x' = record x { pending_data = x.pending_data ++ a } in
        (stdin x c ch a s ≡ (read_stdin x', c, s)) × (stdin x' c ch b s ≡ stdin x c ch (a ++ b) s)
  unfolding stdin
  stdin-split x c ch a b s size path e short = (
    rw e (loop_starved _ x.path (x.pending_data ++ a) c ch s size path short),
    ap
        (λ (d : Bytes).
          loop (enough (record x { pending_data = d })) (record x { pending_data = d }) c ch s)
        (append_assoc x.pending_data a b),
  )

  -- Where what has arrived of a file is the announced number of bytes and the separator, the file is logged
  -- with its path and these bytes, the client gets one sign of success, and the next message can
  -- come.
  pub stdin-file :
      (x : Scp) (c : ConnectionState) (ch : ChannelId) (input content path : Bytes) (s : S)
      → x.state ≡ receiving_file (length content) path
      → x.pending_data ++ input ≡ content ++ 0 ∷ []
      → stdin x c ch input s ≡ (
        read_stdin (record x { pending_data = []; state = waiting }),
        push (write_file (record { path = path; content = content })) c,
        t.data_to ch success s,
      )
  unfolding stdin
  stdin-file x c ch input content path s e all =
      rw (e, all)
        (loop_file (3 * length (content ++ 0 ∷ []) + 3) x.path content c ch s path (omega arith))
