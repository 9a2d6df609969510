-- ===== src/Lua/Uuid.antt =====
-- src/lua/engine.rs, `uuid_v4`. The clock is a parameter: `ns` is the nanoseconds within the
-- second.
pub mod Shape
pub mod Recover
use dgsw_class_pg_proxy.Prelude.{
  ℕ, zero, suc, ◌+◌, ◌-◌, ◌*◌, ◌/◌, ◌%◌, ◌^◌, List, [], ◌∷◌, ◌++◌, ltb, if◌then◌else◌, length,
  replicate,
}
use dgsw_class_pg_proxy.Prelude.Text.{Bytes, codes}

abbrev pub hex_digit : ℕ → ℕ
hex_digit d = if ltb d 10 then 48 + d else 87 + d

-- The digits of a number below `16 ^ fuel`.
unfoldable pub hex_from : ℕ → ℕ → Bytes
hex_from zero n = []
hex_from (suc fuel) n =
    let more = hex_from fuel (n / 16) ++ hex_digit (n % 16) ∷ [] in
    if ltb n 16 then hex_digit n ∷ [] else more

-- `{:x}`: sixteen digits are enough for a `u64`.
abbrev pub hex : ℕ → Bytes
hex n = hex_from 16 n

-- `{:0w x}`.
unfoldable pub hex_padded : ℕ → ℕ → Bytes
unfolding hex_from
hex_padded w n = replicate (w - length (hex n)) b'0' ++ hex n

abbrev pub u64_mod : ℕ
u64_mod = 2 ^ 64

abbrev pub multiplier : ℕ
multiplier = 6364136223846793005

-- `/` and `%` stand for shifts to the right and masks, and a sum for `|` where no bits overlap.
unfoldable pub uuid_v4 : ℕ → Bytes
unfolding hex_padded
uuid_v4 ns =
    hex_padded 8 ns
    ++ (b'-'
        ∷ (hex_padded 4 (ns / 2 ^ 16 % 2 ^ 16)
            ++ (b'-'
                ∷ b'4'
                ∷ (hex_padded 3 (ns / 2 ^ 4 % 2 ^ 12)
                    ++ (b'-'
                        ∷ (hex_padded 4 (0x8000 + ns / 2 ^ 2 % 2 ^ 14)
                            ++ (b'-' ∷ hex_padded 12 (ns * multiplier % u64_mod))))))))
