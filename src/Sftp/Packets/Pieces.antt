-- ===== src/Sftp/Packets/Pieces.antt =====
-- By the laws of nom, a packet is parsed in the same way where more data follow.
use pisshoff.Base.{
  [], ◌∷◌, ℕ, ◌+◌, ◌-◌, ◌^◌, ◌%◌, ◌<◌, ◌++◌, Option, none, some, Bytes, ok, ◌≡◌, refl, subst, arith,
  length,
}
use pisshoff.Nom.{Nom}
use pisshoff.Nom.Laws.{NomLaws}
use pisshoff.Nom.Lengths.{Within}
use pisshoff.Nom.Pieces.{Followed, bind-Followed, take-Followed, be_u32-Followed, be_u8-Followed}
use pisshoff.Sftp.Packets.{PacketType, WirePacket, checked, from_repr, parse}
use pisshoff.Sftp.Packets.Lengths.{parse-Within, parse-nil}

module _ ⦃nom : Nom⦄ (laws : NomLaws nom) where
  checked-Followed :
      (t : Bytes) (size id : ℕ) (content rest : Bytes) (typ : Option PacketType)
      → Followed t (checked size id content rest typ) (checked size id content (rest ++ t) typ)
  unfolding checked
  checked-Followed t size id content rest none = tt
  checked-Followed t size id content rest (some typ) = refl

  pub parse-Followed : (s t : Bytes) → Followed t (parse s) (parse (s ++ t))
  unfolding parse
  parse-Followed s t = bind-Followed t (nom.be_u32 s) _ _ (be_u32-Followed laws s t) (λ a size.
      bind-Followed t (nom.be_u8 a) _ _ (be_u8-Followed laws a t) (λ b typ.
        bind-Followed t (nom.be_u32 b) _ _ (be_u32-Followed laws b t) (λ d id.
          let m = (size + 2 ^ 32 - 5) % 2 ^ 32 in
          bind-Followed t (nom.take m d) _ _ (take-Followed laws d t m)
            (λ rest content. checked-Followed t size id content rest (from_repr typ)))))

  pub parse-shorter :
      (d rest : Bytes) (p : WirePacket) → parse d ≡ ok (rest, p) → length rest < length d
  parse-shorter [] rest p e = absurd (ground (arith, e, parse-nil laws))
  parse-shorter (b ∷ d) rest p e =
      let w = subst (Within (length d)) e (parse-Within laws (length d) (b ∷ d) (omega arith)) in
      omega (arith, w)
