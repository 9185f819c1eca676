-- ===== src/Core/Base64/Runs.antt =====
-- Runs of base64, and the theorems on it at concrete inputs.
use libcornrow.Base.{codes, ◌≡◌, refl, true, some, [], ◌∷◌, arith}
use libcornrow.Core.Base64.{base64_decode, base64_encode}
use libcornrow.Core.Base64.Laws.{base64_decode-encode}

encode_light : base64_encode (codes "light w") true ≡ codes "bGlnaHQgdw=="
unfolding base64_encode
encode_light = refl

decode_light : base64_decode (codes "bGlnaHQgd28=") ≡ some (codes "light wo")
unfolding base64_decode
decode_light = refl

base64_decode-encode_example :
    base64_decode (base64_encode (7 ∷ 255 ∷ 0 ∷ 9 ∷ []) true) ≡ some (7 ∷ 255 ∷ 0 ∷ 9 ∷ [])
base64_decode-encode_example =
    base64_decode-encode (7 ∷ 255 ∷ 0 ∷ 9 ∷ [])
      (omega arith, (omega arith, (omega arith, (omega arith, tt))))
