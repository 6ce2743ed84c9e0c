-- ===== src/Boot/Segments.antt =====
-- The descriptors that `entry` builds, read the way the processor reads them.
use operating_system_ece.Common.{ℕ, ◌+◌, ◌*◌, ◌^◌, ◌<◌, ◌≡◌, refl, arith}
use operating_system_ece.Boot.{SegDesc, set_params, ldt_descriptor, tss_descriptor}

-- The base and the limit that are spread over a descriptor.
abbrev pub base_of : SegDesc → ℕ
base_of d = d.base_31_24 * 2 ^ 24 + d.base_23_16 * 2 ^ 16 + d.base_15_00

abbrev pub limit_of : SegDesc → ℕ
limit_of d = d.seg_lim_19_16 * 2 ^ 16 + d.seg_lim_15_00

-- Each field fits the bits that the structure gives it.
abbrev pub FitsBits : SegDesc → Type 0
FitsBits d =
    (d.base_31_24 < 2 ^ 8)
    × (d.base_23_16 < 2 ^ 8)
    × (d.base_15_00 < 2 ^ 16)
    × (d.seg_lim_19_16 < 2 ^ 4)
    × (d.seg_lim_15_00 < 2 ^ 16)

-- A present system segment of level 0, counted in bytes.
pub record IsSystemSegment (addr lim kind : ℕ) (d : SegDesc) : Type 0 where
  pub base : base_of d ≡ addr
  pub limit : limit_of d ≡ lim
  pub fits : FitsBits d
  pub kind_bits : d.type ≡ kind
  pub is_present : d.present ≡ 1
  pub is_system : (d.sys ≡ 0) × (d.dpl ≡ 0) × (d.granularity ≡ 0)

set_params-base :
    (d : SegDesc) (addr lim : ℕ) → addr < 2 ^ 32 → base_of (set_params d addr lim) ≡ addr
unfolding set_params
set_params-base d addr lim h = omega arith

set_params-limit :
    (d : SegDesc) (addr lim : ℕ) → lim < 2 ^ 20 → limit_of (set_params d addr lim) ≡ lim
unfolding set_params
set_params-limit d addr lim h = omega arith

set_params-FitsBits : (d : SegDesc) (addr lim : ℕ) → FitsBits (set_params d addr lim)
unfolding set_params
set_params-FitsBits d addr lim = (omega arith, omega arith, omega arith, omega arith, omega arith)

pub ldt_descriptor-IsSystemSegment :
    (d : SegDesc) (addr lim : ℕ)
    → addr < 2 ^ 32
    → lim < 2 ^ 20
    → IsSystemSegment addr lim 2 (ldt_descriptor d addr lim)
unfolding ldt_descriptor set_params
ldt_descriptor-IsSystemSegment d addr lim h h' = record {
  base = set_params-base d addr lim h;
  limit = set_params-limit d addr lim h';
  fits = set_params-FitsBits d addr lim;
  kind_bits = refl;
  is_present = refl;
  is_system = (refl, refl, refl);
}

pub tss_descriptor-IsSystemSegment :
    (d : SegDesc) (addr lim : ℕ)
    → addr < 2 ^ 32
    → lim < 2 ^ 20
    → IsSystemSegment addr lim 9 (tss_descriptor d addr lim)
unfolding tss_descriptor set_params
tss_descriptor-IsSystemSegment d addr lim h h' = record {
  base = set_params-base d addr lim h;
  limit = set_params-limit d addr lim h';
  fits = set_params-FitsBits d addr lim;
  kind_bits = refl;
  is_present = refl;
  is_system = (refl, refl, refl);
}
