-- ===== src/Audio/Encoder/Frames.antt =====
-- A frame as interleaved bytes, and what `fillFrame` does to it.
use libcornrow.Base.{
  ltb, ◌==◌, if◌then◌else◌, if_true, le→leb, take, drop, take-append-drop, take_split, slice, ℕ,
  zero, suc, ◌+◌, ◌-◌, ◌*◌, ◌/◌, ◌≤◌, ◌<◌, min, ◌≡◌, refl, ap, ap₂, ◌∙◌, ◌≢◌, Bool, true, false,
  ◌&&◌, ◌||◌, List, [], ◌++◌, append-nil, append_assoc, arith,
}
use libcornrow.Audio.Encoder.{
  Context, AvFrame, create_frame, write_slot, fill_channels, fill_samples, samples_to_fill,
  fill_frame,
}
use libcornrow.Core.Buffer.Contents.{contents-trim_front}
use libcornrow.Core.Buffer.{Buffer, contents, trim_front}
use libcornrow.Core.Buffer.Bounds.{IsSound, trim_front-IsSound}
use native.Mathlib.Nat.{
  mul-le-mul, mul-le-mul_right, mul-le-mul_left, div-mul-le_self, lt-mul-div-succ,
}

-- Sample `i` of the first `n` channels
unfoldable pub row : ℕ → ℕ → AvFrame → List ℕ
row zero i f = []
row (suc n) i f = row n i f ++ f.slot n i

-- The first `k` samples of all channels, interleaved
unfoldable pub rows : Context → ℕ → AvFrame → List ℕ
unfolding row
rows c zero f = []
rows c (suc k) f = rows c k f ++ row c.nb_channels k f

abbrev pub interleaved : Context → AvFrame → List ℕ
interleaved c f = rows c f.nb_samples f

slot-fill_channels :
    (ss i n : ℕ) (idata : List ℕ) (f : AvFrame) (p k : ℕ)
    → (fill_channels ss i n idata f).slot p k
      ≡ (if ltb p n && (k == i) then slice (p * ss) ss idata else f.slot p k)
unfolding fill_channels write_slot
slot-fill_channels ss i zero idata f p k = ground arith
slot-fill_channels ss i (suc n) idata f p k =
    ground (arith, slot-fill_channels ss i n idata f p k, same)
  where
    same : p ≡ n → slice (n * ss) ss idata ≡ slice (p * ss) ss idata
    same e = rw e refl

row_other :
    (ss i n m : ℕ) (idata : List ℕ) (f : AvFrame) (k : ℕ)
    → k ≢ i
    → row m k (fill_channels ss i n idata f) ≡ row m k f
unfolding row
row_other ss i n zero idata f k h = refl
row_other ss i n (suc m) idata f k h =
    let e : (fill_channels ss i n idata f).slot m k ≡ f.slot m k =
      ground (arith, slot-fill_channels ss i n idata f m k) in
    rw (e, row_other ss i n m idata f k h) refl

row_filled :
    (ss i n m : ℕ) (idata : List ℕ) (f : AvFrame)
    → m ≤ n
    → row m i (fill_channels ss i n idata f) ≡ take (m * ss) idata
unfolding row
row_filled ss i n zero idata f h = let e : 0 * ss ≡ 0 = omega arith in rw e refl
row_filled ss i n (suc m) idata f h =
    let e : (fill_channels ss i n idata f).slot m i ≡ slice (m * ss) ss idata =
      ground (arith, slot-fill_channels ss i n idata f m i) in
    let sum : suc m * ss ≡ m * ss + ss = omega arith in
    rw (e, row_filled ss i n m idata f (omega arith), sum) (take_split (m * ss) ss idata)

rows_kept :
    (c : Context) (i k : ℕ) (idata : List ℕ) (f : AvFrame)
    → k ≤ i
    → rows c k (fill_channels c.sample_size i c.nb_channels idata f) ≡ rows c k f
unfolding rows
rows_kept c i zero idata f h = refl
rows_kept c i (suc k) idata f h =
    rw
      (
        rows_kept c i k idata f (omega arith),
        row_other c.sample_size i c.nb_channels c.nb_channels idata f k (λ e. omega (arith, e)),
      )
      refl

-- `k` more samples of each channel are the next bytes of the input.
rows-fill_samples :
    (c : Context) (k i : ℕ) (idata : List ℕ) (f : AvFrame)
    → rows c (i + k) (fill_samples c k i idata f)
      ≡ rows c i f ++ take (k * (c.nb_channels * c.sample_size)) idata
unfolding fill_samples rows
rows-fill_samples c zero i idata f =
    let e : i + 0 ≡ i = omega arith in
    let z : 0 * (c.nb_channels * c.sample_size) ≡ 0 = omega arith in
    rw (e, z, append-nil (rows c i f)) refl
rows-fill_samples c (suc k) i idata f =
    ap (λ x. rows c x (fill_samples c (suc k) i idata f)) {x = i + suc k} {y = suc i + k}
      (omega arith)
    ∙ rows-fill_samples c k (suc i) (drop n idata) filled
    ∙ ap (λ x. x ++ take (k * n) (drop n idata)) first
    ∙ append_assoc (rows c i f) (take n idata) (take (k * n) (drop n idata))
    ∙ ap (λ x. rows c i f ++ x) (take_split n (k * n) idata ∙ ap (λ x. take x idata) sum)
  where
    n : ℕ
    n = c.nb_channels * c.sample_size

    filled : AvFrame
    filled = fill_channels c.sample_size i c.nb_channels idata f

    sum : n + k * n ≡ suc k * n
    sum = omega arith

    first : rows c (suc i) filled ≡ rows c i f ++ take n idata
    first = rw (rows_kept c i i idata f (omega arith)) (
        ap (λ x. rows c i f ++ x)
          (row_filled c.sample_size i c.nb_channels c.nb_channels idata f (omega arith)))

whole_part :
    (n c s : ℕ) → 0 < c → 0 < s → (n / c / s * (c * s) ≤ n) × (n < n / c / s * (c * s) + c * s)
whole_part n c s hc hs =
    let r = n / c in
    let q = n / c / s in
    let low : q * s * c ≤ n / c * c = mul-le-mul_right c (div-mul-le_self r s) in
    let high : c * suc r ≤ c * (s * (q + 1)) = mul-le-mul_left c (lt-mul-div-succ r hs) in
    (omega (arith, low, div-mul-le_self n c), omega (arith, high, lt-mul-div-succ n hc))

-- A context of which `fillFrame` handles the samples.
pub record IsUsable (c : Context) : Type 0 where
  pub frame_filled : 0 < c.frame_size
  pub has_channels : 0 < c.nb_channels
  pub sample_known : (c.sample_size == 2) || (c.sample_size == 4) ≡ true

abbrev pub sample_bytes : Context → ℕ
sample_bytes c = c.nb_channels * c.sample_size

-- The data are samples of all channels.
abbrev pub IsWhole : Context → Buffer → Type 0
IsWhole c b = (m : ℕ) × (b.size ≡ m * sample_bytes c)

-- No byte is lost: what the frame and the buffer hold, in this order, stays as it is. A frame that is
-- returned is full, and has taken at least one byte; one that is not leaves less than a sample. Whole
-- samples are taken.
pub record Filled (c : Context) (f : AvFrame) (b : Buffer) (r : Bool × AvFrame × Buffer)
    : Type 0 where
  pub sound : IsSound r.2
  pub taken : ℕ
  pub eaten : r.2.size + taken * sample_bytes c ≡ b.size
  pub kept : interleaved c r.1 ++ contents r.2 ≡ interleaved c f ++ contents b
  pub full : r.0 ≡ true → (r.1.nb_samples ≡ c.frame_size) × (r.2.size < b.size)
  pub part : r.0 ≡ false → (r.1.nb_samples < c.frame_size) × (r.2.size < sample_bytes c)

rows_count :
    (c : Context) (k m : ℕ) (f : AvFrame) → rows c k (record f { nb_samples = m }) ≡ rows c k f
unfolding rows
rows_count c zero m f = refl
rows_count c (suc k) m f = ap₂ ◌++◌ (rows_count c k m f) (row_count c.nb_channels)
  where
    row_count : (n : ℕ) → row n k (record f { nb_samples = m }) ≡ row n k f
    row_count zero = refl
    row_count (suc n) = ap (λ x. x ++ f.slot n k) (row_count n)

samples_fit :
    (c : Context) (f : AvFrame) (b : Buffer)
    → IsUsable c
    → (0 < sample_bytes c)
      × (samples_to_fill c f b * sample_bytes c ≤ b.size)
      × (b.size < b.size / c.nb_channels / c.sample_size * sample_bytes c + sample_bytes c)
unfolding samples_to_fill
samples_fit c f b u =
    let some_bytes : 0 < c.sample_size = ground (arith, u.sample_known) in
    let some_sample : 1 * 1 ≤ sample_bytes c = mul-le-mul u.has_channels some_bytes in
    let q = b.size / c.nb_channels / c.sample_size in
    let whole = whole_part b.size c.nb_channels c.sample_size u.has_channels some_bytes in
    let fewer : min (c.frame_size - f.nb_samples) q * sample_bytes c ≤ q * sample_bytes c =
      mul-le-mul_right (sample_bytes c) (omega arith) in
    (omega (arith, some_sample), omega (arith, fewer, whole.0), whole.1)

pub fill_frame-Filled :
    (c : Context) (f : AvFrame) {b : Buffer}
    → IsUsable c
    → IsSound b
    → f.nb_samples < c.frame_size
    → Filled c f b (fill_frame c f b)
unfolding fill_frame samples_to_fill trim_front
fill_frame-Filled c f {b} u v h = rw u.sample_known (record {
  sound = trim_front-IsSound cut v;
  taken = n;
  eaten = omega (arith, left, fits_all);
  kept =
      ap₂ ◌++◌ front back
      ∙ append_assoc (interleaved c f) (take (n * sample_bytes c) (contents b))
          (drop (n * sample_bytes c) (contents b))
      ∙ ap (λ x. interleaved c f ++ x) (take-append-drop (n * sample_bytes c) (contents b));
  full = λ (e : f.nb_samples + n == c.frame_size ≡ true).
      let full_count : f.nb_samples + n ≡ c.frame_size = ground (arith, e) in
      let one_sample : 1 * sample_bytes c ≤ n * sample_bytes c =
        mul-le-mul_right (sample_bytes c) (omega arith) in
      (full_count, omega (arith, left, fits_all, one_sample));
  part = λ (e : f.nb_samples + n == c.frame_size ≡ false).
      let other_count : f.nb_samples + n ≢ c.frame_size = ground (arith, e) in
      let all : n ≡ b.size / c.nb_channels / c.sample_size = omega arith in
      let same : n * sample_bytes c ≡ b.size / c.nb_channels / c.sample_size * sample_bytes c =
        ap (λ x. x * sample_bytes c) all in
      (omega arith, omega (arith, left, fits_all, same));
})
  where
    n : ℕ
    n = samples_to_fill c f b

    fits_all :
        (0 < sample_bytes c)
        × (n * sample_bytes c ≤ b.size)
        × (b.size < b.size / c.nb_channels / c.sample_size * sample_bytes c + sample_bytes c)
    fits_all = samples_fit c f b u

    cut : ℕ
    cut = n * c.sample_size * c.nb_channels

    fits : cut ≤ b.size
    fits = omega (arith, fits_all)

    front :
        interleaved c
          (record (fill_samples c n f.nb_samples (contents b) f) { nb_samples = f.nb_samples + n })
        ≡ interleaved c f ++ take (n * sample_bytes c) (contents b)
    front =
        rows_count c (f.nb_samples + n) (f.nb_samples + n)
          (fill_samples c n f.nb_samples (contents b) f)
        ∙ rows-fill_samples c n f.nb_samples (contents b) f

    back : contents (trim_front cut b) ≡ drop (n * sample_bytes c) (contents b)
    back =
        contents-trim_front cut v
        ∙ if_true _ _ (le→leb _ _ fits)
        ∙ ap (λ x. drop x (contents b)) (omega arith)

    left : (trim_front cut b).size ≡ b.size - n * sample_bytes c
    left = ground (arith, fits)

pub interleaved-create_frame : (c : Context) → interleaved c create_frame ≡ []
unfolding rows create_frame
interleaved-create_frame c = refl
