-- ===== src/Beebscsi/Descriptors.antt =====
-- What an accepted descriptor promises.
use nautilus_acornfs.Prelude.{
  ℕ, zero, suc, ◌+◌, ◌*◌, ◌^◌, ◌≤◌, ◌<◌, ◌≡◌, Bool, true, false, ltb, ◌==◌, length, get_or, refl,
  arith, not,
}
use nautilus_acornfs.Prelude.Text.{Bytes}
use nautilus_acornfs.Prelude.Result.{Error, descriptor_error, ok, raise_if, ◌>>◌}
use nautilus_acornfs.Beebscsi.{
  BeebScsiGeometry, max_adfs_sectors, sectors, capacity, geometry_of, parse_descriptor,
}

-- A geometry that the old format can address.
pub record IsAddressable (content : Bytes) (g : BeebScsiGeometry) : Type 0 where
  pub size : length content ≡ 22
  pub cylinders : g.cylinders ≡ get_or content 13 0 * 256 + get_or content 14 0
  pub heads : g.heads ≡ get_or content 15 0
  pub some_sectors : 1 ≤ sectors g
  pub few_sectors : sectors g < 2 ^ 21
  pub bytes : capacity g < 2 ^ 29

guards :
    (t u v w : Bool) (e : Error) (g g' : BeebScsiGeometry)
    → (raise_if t e >> (raise_if u e >> (raise_if v e >> (raise_if w e >> ok g)))) ≡ ok g'
    → (t ≡ false) × (u ≡ false) × (v ≡ false) × (w ≡ false) × (g ≡ g')
guards true u v w e g g' h = cc
guards false true v w e g g' h = cc
guards false false true w e g g' h = cc
guards false false false true e g g' h = cc
guards false false false false e g g' h = (refl, refl, refl, refl, cc)

some_product : (c h : ℕ) → (c == 0) ≡ false → (h == 0) ≡ false → 1 ≤ c * h * 33
some_product zero h nc nh = cc
some_product (suc c) zero nc nh = cc
some_product (suc c) (suc h) nc nh = omega arith

accepted :
    (content : Bytes) (c h : ℕ)
    → length content ≡ 22
    → c ≡ get_or content 13 0 * 256 + get_or content 14 0
    → h ≡ get_or content 15 0
    → (c == 0) ≡ false
    → (h == 0) ≡ false
    → ltb max_adfs_sectors (c * h * 33) ≡ false
    → IsAddressable content (geometry_of c h)
accepted content c h l ec eh nc nh small = record {
  size = l;
  cylinders = ec;
  heads = eh;
  some_sectors = some_product c h nc nh;
  few_sectors = ground (arith, small);
  bytes = ground (arith, small);
}

-- A descriptor that is accepted has 22 bytes, and its geometry is the one that bytes 13 to 15 encode, with
-- at least one sector, with sector numbers of 21 bits, and with less than 2 ^ 29 bytes.
pub parse_descriptor-IsAddressable :
    (content : Bytes) (g : BeebScsiGeometry)
    → parse_descriptor content ≡ ok g
    → IsAddressable content g
unfolding parse_descriptor
parse_descriptor-IsAddressable content g h =
    let c = get_or content 13 0 * 256 + get_or content 14 0 in
    let n = get_or content 15 0 in
    let (sized, some_cylinders, some_heads, small, same) =
      guards (not (length content == 22)) (c == 0) (n == 0) (ltb max_adfs_sectors (c * n * 33))
        descriptor_error (geometry_of c n) g h in
    rw (← same) (accepted content c n (ground arith) refl refl some_cylinders some_heads small)
