-- ===== src/Sftp/Packets/Wires.antt =====
-- The packets on the wire, by the laws of nom.
use pisshoff.Base.{
  ℕ, ◌+◌, ◌-◌, ◌^◌, ◌%◌, ◌<◌, ◌≡◌, refl, ap, arith, ◌∷◌, ◌++◌, some, Bytes, ok, returns, length,
  leb, true,
}
use pisshoff.Std.Numbers.{be_value}
use pisshoff.Nom.{Nom}
use pisshoff.Nom.Laws.{NomLaws}
use pisshoff.Nom.Fronts.{take-front}
use pisshoff.Sftp.Packets.{
  PacketType, init, version, open_, close, read, write, lstat, fstat, set_stat, fset_stat, open_dir,
  read_dir, remove, mkdir, rmdir, real_path, stat, rename, read_link, link, block, unblock, status,
  handle, data_, name, attrs, extended, extended_reply, as_u8, from_repr, u32_bytes, WirePacket,
  new, to_bytes, checked, parse,
}

u32_bytes-value : (n : ℕ) → n < 2 ^ 32 → be_value 0 (u32_bytes n) ≡ n
u32_bytes-value n h = omega arith

from_repr-as_u8 : (t : PacketType) → from_repr (as_u8 t) ≡ some t
from_repr-as_u8 init = refl
from_repr-as_u8 version = refl
from_repr-as_u8 open_ = refl
from_repr-as_u8 close = refl
from_repr-as_u8 read = refl
from_repr-as_u8 write = refl
from_repr-as_u8 lstat = refl
from_repr-as_u8 fstat = refl
from_repr-as_u8 set_stat = refl
from_repr-as_u8 fset_stat = refl
from_repr-as_u8 open_dir = refl
from_repr-as_u8 read_dir = refl
from_repr-as_u8 remove = refl
from_repr-as_u8 mkdir = refl
from_repr-as_u8 rmdir = refl
from_repr-as_u8 real_path = refl
from_repr-as_u8 stat = refl
from_repr-as_u8 rename = refl
from_repr-as_u8 read_link = refl
from_repr-as_u8 link = refl
from_repr-as_u8 block = refl
from_repr-as_u8 unblock = refl
from_repr-as_u8 status = refl
from_repr-as_u8 handle = refl
from_repr-as_u8 data_ = refl
from_repr-as_u8 name = refl
from_repr-as_u8 attrs = refl
from_repr-as_u8 extended = refl
from_repr-as_u8 extended_reply = refl

new-returns :
    (typ : PacketType) (request_id : ℕ) (content : Bytes) (p : WirePacket)
    → new typ request_id content ≡ returns p
    → (p ≡ record {
      size = 5 + length content;
      typ = typ;
      request_id = request_id;
      content = content;
    })
      × (5 + length content < 2 ^ 32)
unfolding new
new-returns typ request_id content p h = ground arith

module _ ⦃nom : Nom⦄ (laws : NomLaws nom) where
  be_u32-front : (n : ℕ) (s : Bytes) → n < 2 ^ 32 → nom.be_u32 (u32_bytes n ++ s) ≡ ok (s, n)
  be_u32-front n s h =
      let enough : leb 4 (length (u32_bytes n ++ s)) ≡ true = ground arith in
      rw (laws.be_u32_lem (u32_bytes n ++ s), enough)
        (ap (λ (m : ℕ). ok (s, m)) (u32_bytes-value n h))

  be_u8-front : (n : ℕ) (s : Bytes) → nom.be_u8 (n ∷ s) ≡ ok (s, n)
  be_u8-front n s =
      let enough : leb 1 (length (n ∷ s)) ≡ true = ground arith in
      rw (laws.be_u8_lem (n ∷ s), enough) (ap (λ (m : ℕ). ok (s, m)) (omega arith))

  parse-wire :
      (typ : PacketType) (request_id : ℕ) (content rest : Bytes)
      → 5 + length content < 2 ^ 32
      → request_id < 2 ^ 32
      → let p : WirePacket = record {
        size = 5 + length content;
        typ = typ;
        request_id = request_id;
        content = content;
      } in
        parse (to_bytes p ++ rest) ≡ ok (rest, p)
  unfolding parse to_bytes checked
  parse-wire typ request_id content rest h k =
      let body = content ++ rest in
      let n = (5 + length content + 2 ^ 32 - 5) % 2 ^ 32 in
      rw
        (
          parse,
          be_u32-front (5 + length content) (as_u8 typ ∷ u32_bytes request_id ++ body) h,
          be_u8-front (as_u8 typ) (u32_bytes request_id ++ body),
          be_u32-front request_id body k,
          take-front laws n content rest (omega arith),
          from_repr-as_u8 typ,
        )
        refl

  -- By the laws of nom, a packet that `WirePacket::new` has made, and whose identifier is a 32-bit
  -- number, is read back from its bytes by `WirePacket::parse`, whatever follows it.
  pub parse-to_bytes :
      (typ : PacketType) (request_id : ℕ) (content rest : Bytes) (p : WirePacket)
      → new typ request_id content ≡ returns p
      → request_id < 2 ^ 32
      → parse (to_bytes p ++ rest) ≡ ok (rest, p)
  parse-to_bytes typ request_id content rest p h k =
      let (e, l) = new-returns typ request_id content p h in
      rw e (parse-wire typ request_id content rest l k)
