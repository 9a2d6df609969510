-- ===== src/Lua/Hmac/Latin.antt =====
-- engine.rs: what scripts get of an HMAC.
use dgsw_class_pg_proxy.Prelude.{
  ℕ, suc, ◌+◌, ◌/◌, ◌%◌, ◌<◌, ◌≡◌, refl, ap, ◌↔◌, true, false, Bool, inl, inr, [], ◌∷◌, All, length,
  filter, ltb, leb, Bool-cases, arith,
}
use dgsw_class_pg_proxy.Prelude.Text.{Bytes, utf8_char}
use dgsw_class_pg_proxy.Lua.Base64.{is_utf8, utf8_from, utf8_step}
use dgsw_class_pg_proxy.Lua.Hmac.{latin1, hmac_sha256_raw}

abbrev pub is_high : ℕ → Bool
is_high b = leb 128 b

pub length-latin1 :
    (bs : Bytes)
    → All (λ b. b < 256) bs
    → length (latin1 bs) ≡ length bs + length (filter is_high bs)
unfolding latin1 utf8_char
length-latin1 [] h = refl
length-latin1 (b ∷ bs) (small, h) = elim (Bool-cases (ltb b 128)) [
  | inl low ↦
      let low' : leb 128 b ≡ false = ground arith in
      rw (low, low') (omega (arith, length-latin1 bs h))
  | inr high ↦
      let high' : leb 128 b ≡ true = ground arith in
      let two : ltb b 2048 ≡ true = ground arith in
      rw (high, high', two) (omega (arith, length-latin1 bs h))
]

latin1-is_utf8 : (bs : Bytes) → All (λ b. b < 256) bs → is_utf8 (latin1 bs) ≡ true
unfolding latin1 utf8_char utf8_from utf8_step
latin1-is_utf8 [] h = refl
latin1-is_utf8 (b ∷ bs) (small, h) = elim (Bool-cases (ltb b 128)) [
  | inl low ↦ rw low (rw low (latin1-is_utf8 bs h))
  | inr high ↦
      let two : ltb b 2048 ≡ true = ground arith in
      let lead : ltb (0xc0 + b / 64) 0x80 ≡ false = ground arith in
      let least : leb 0xc2 (0xc0 + b / 64) ≡ true = ground arith in
      let most : leb (0xc0 + b / 64) 0xdf ≡ true = ground arith in
      let from : leb 0x80 (0x80 + b % 64) ≡ true = ground arith in
      let to : leb (0x80 + b % 64) 0xbf ≡ true = ground arith in
      rw (high, two) (rw (lead, least, most) (rw (from, to) (latin1-is_utf8 bs h)))
]

pub latin1-ascii : (bs : Bytes) → All (λ b. b < 128) bs → latin1 bs ≡ bs
unfolding latin1 utf8_char
latin1-ascii [] h = refl
latin1-ascii (b ∷ bs) (low, h) =
    let low' : ltb b 128 ≡ true = ground arith in rw low' (ap (λ cs. b ∷ cs) (latin1-ascii bs h))

no_high : (bs : Bytes) → length (filter is_high bs) ≡ 0 → All (λ b. b < 128) bs
no_high [] h = tt
no_high (b ∷ bs) h = elim (Bool-cases (is_high b)) [
  | inl high ↦
      absurd (let h' : suc (length (filter is_high bs)) ≡ 0 = rw high at h in omega (arith, h'))
  | inr low ↦ (ground arith, no_high bs (rw low at h))
]

-- Whatever bytes the HMAC has, what a script gets is UTF-8 and longer than them by one byte for
-- each of 128 or more; it is the bytes themselves exactly if there is none of those.
pub hmac_sha256_raw_lem :
    (hmac : Bytes → Bytes → Bytes) (msg secret : Bytes)
    → All (λ b. b < 256) (hmac secret msg)
    → (is_utf8 (hmac_sha256_raw hmac msg secret) ≡ true)
      × (length (hmac_sha256_raw hmac msg secret)
          ≡ length (hmac secret msg) + length (filter is_high (hmac secret msg)))
      × ((hmac_sha256_raw hmac msg secret ≡ hmac secret msg) ↔ All (λ b. b < 128) (hmac secret msg))
unfolding hmac_sha256_raw
hmac_sha256_raw_lem hmac msg secret h =
    let digest = hmac secret msg in
    let size = length-latin1 digest h in
    (
      latin1-is_utf8 digest h,
      size,
      (
        λ e. no_high digest (omega (arith, size, ap (λ (bs : Bytes). length bs) e)),
        latin1-ascii digest,
      ),
    )
