-- ===== src/Sftp/Packets/Lengths.antt =====
-- By the laws of nom, a packet that is parsed takes at least one byte.
use pisshoff.Base.{
  [], ◌≡◌, refl, ℕ, suc, ◌+◌, ◌-◌, ◌^◌, ◌%◌, ◌≤◌, Bytes, Option, none, some, err, arith, length,
}
use pisshoff.Nom.{Nom, error, eof}
use pisshoff.Nom.Laws.{NomLaws}
use pisshoff.Nom.Lengths.{Within, Within_le, bind-Within, take-Within, be_u32-Within, be_u8-Within}
use pisshoff.Sftp.Packets.{PacketType, checked, from_repr, parse}

module _ ⦃nom : Nom⦄ (laws : NomLaws nom) where
  checked-Within :
      (n size id : ℕ) (content rest : Bytes) (t : Option PacketType)
      → length rest ≤ n
      → Within n (checked size id content rest t)
  unfolding checked
  checked-Within n size id content rest none h = tt
  checked-Within n size id content rest (some t) h = h

  pub parse-Within : (n : ℕ) (s : Bytes) → length s ≤ suc n → Within n (parse s)
  unfolding parse
  parse-Within n s h = bind-Within n n (nom.be_u32 s) _ (be_u32-Within laws n s h) (λ a size l.
      bind-Within n n (nom.be_u8 a) _ (Within_le (length a) n (nom.be_u8 a) l (be_u8-Within laws a))
        (λ b typ l.
          bind-Within n n (nom.be_u32 b) _ (be_u32-Within laws n b (omega arith)) (λ d id l.
            let m = (size + 2 ^ 32 - 5) % 2 ^ 32 in
            bind-Within n n (nom.take m d) _
              (Within_le (length d) n (nom.take m d) l (take-Within laws m d))
              (λ rest content l. checked-Within n size id content rest (from_repr typ) l))))

  pub parse-nil : parse [] ≡ err (error eof)
  unfolding parse
  parse-nil = rw (parse, laws.be_u32_lem []) refl
