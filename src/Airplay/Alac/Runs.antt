-- ===== src/Airplay/Alac/Runs.antt =====
-- A decoder that doubles each byte.
use libcornrow.Base.{length, replicate, overwrite, ℕ, ◌≡◌, refl, some, [], ◌∷◌, arith}
use libcornrow.Core.Buffer.{Allocator, Buffer, blank, contents}
use libcornrow.Airplay.Alac.{Alac, on_process}
use mathlib.Core.Option

abbrev doubled : Alac ℕ
doubled = record {
  set_info = λ ns s. length ns;
  alac_decode_frame = λ xs s. elim xs [ [] ↦ ([], s) | x ∷ rest ↦ (x ∷ x ∷ [], s) ];
}

abbrev exact : Allocator
exact = record { growth = λ c n. n; growth_enough = λ c n. omega arith }

abbrev packet : Buffer
packet = record blank { buffer = 7 ∷ replicate 7 0; reserved = 2; size = 4 }

samples_run :
    Option.map (λ r. contents (r.1)) (on_process doubled exact 0 packet) ≡ some (7 ∷ 7 ∷ [])
unfolding on_process overwrite
samples_run = refl
