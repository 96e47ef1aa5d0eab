-- ===== src/Keystore/Keys.antt =====
-- client/src/main/keystore.ts: which texts are taken for a private key.
use umbra_gateway.Prelude.{
  String, true, false, Bool-cases, inl, inr, ◌≡◌, refl, ok, err, arith, if◌then◌else◌,
}
use umbra_gateway.Prelude.Text.{append, starts, starts-append, length}
use umbra_gateway.Keystore.{is_key, normalize_key}

is_key-facts : (hex : String) → is_key hex ≡ true → (starts hex "0x" ≡ true) × (length hex ≡ 66)
unfolding is_key
is_key-facts hex e = (ground arith, ground arith)

-- A normalised key is `0x` and 64 characters more, and normalising it again changes nothing.
pub normalize_key_idem :
    (raw key : String)
    → normalize_key raw ≡ ok key
    → (normalize_key key ≡ ok key) × (length key ≡ 66) × (starts key "0x" ≡ true)
unfolding normalize_key
normalize_key_idem raw key e = go (if starts raw "0x" then raw else append "0x" raw) refl e
  where
    go :
        (hex : String)
        → (if starts raw "0x" then raw else append "0x" raw) ≡ hex
        → (if is_key hex
            then ok hex
            else err "Invalid private key: must be 32 bytes (64 hex chars)")
          ≡ ok key
        → (normalize_key key ≡ ok key) × (length key ≡ 66) × (starts key "0x" ≡ true)
    go hex h e = elim (Bool-cases (is_key hex)) [
      | inl good ↦
          let same : hex ≡ key = cc (rw good at e) in
          let (s, l) = is_key-facts hex good in
          unfold normalize_key in rw⁻¹ same (rw s (rw good refl), l, s)
      | inr bad ↦ cc (rw bad at e)
    ]

-- A key is the same with and without its prefix.
pub normalize_key-prefix :
    (raw : String) → starts raw "0x" ≡ false → normalize_key (append "0x" raw) ≡ normalize_key raw
unfolding normalize_key
normalize_key-prefix raw bare = simp (bare, starts-append "0x" raw)
