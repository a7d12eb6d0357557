-- ===== src/Sdb/Overlay/Cover.antt =====
-- Which addresses are covered.
use advanced_programmin.Prelude.{
  ℕ, zero, suc, ◌^◌, ◌<◌, ◌≡◌, refl, arith, false, ◌||◌, none, some, List, [], ◌∷◌, ◌++◌, All,
  get_elem?, erase_at, ◌==◌,
}
use mathlib.Core.Path.{subst}
use mathlib.Core.Option.{some-injective}
use advanced_programmin.Sdb.Types.{Bp}
use advanced_programmin.Sdb.Memory.{add64}
use advanced_programmin.Sdb.Breakpoints.{has_addr, find_bp}
use advanced_programmin.Sdb.Invariant.{Distinct, InRange}
use advanced_programmin.Sdb.Overlay.{covered}

pub covered-append :
    (base b : ℕ) (bps : List Bp) (bp : Bp)
    → covered base b (bps ++ (bp ∷ [])) ≡ (add64 base bp.addr == b || covered base b bps)
unfolding covered
covered-append base b [] bp = refl
covered-append base b (c ∷ bps) bp = ground (arith, covered-append base b bps bp)

-- Addresses that differ stay apart when a base is added to them, modulo 2 ^ 64.
pub covered-has_addr :
    (base a : ℕ) (bps : List Bp)
    → a < 2 ^ 64
    → All InRange bps
    → has_addr a bps ≡ false
    → covered base (add64 base a) bps ≡ false
unfolding covered has_addr
covered-has_addr base a [] lt r h = refl
covered-has_addr base a (bp ∷ bps) lt r h =
    ground (arith, covered-has_addr base a bps lt r.1, r.0.0)

pub covered-erase :
    (base b : ℕ) (bps : List Bp) (i : ℕ) {bp : Bp}
    → get_elem? bps i ≡ some bp
    → (covered base b bps ≡ (add64 base bp.addr == b || covered base b (erase_at bps i)))
unfolding covered
covered-erase base b [] i e = cc
covered-erase base b (c ∷ bps) zero e = ground arith
covered-erase base b (c ∷ bps) (suc i) e = ground (arith, covered-erase base b bps i e)

pub has_addr-nth :
    (a : ℕ) (bps : List Bp) (i : ℕ) {bp : Bp}
    → has_addr a bps ≡ false
    → get_elem? bps i ≡ some bp
    → (a == bp.addr) ≡ false
unfolding has_addr
has_addr-nth a [] i h e = cc
has_addr-nth a (c ∷ bps) zero h e = ground arith
has_addr-nth a (c ∷ bps) (suc i) h e = has_addr-nth a bps i (ground arith) e

pub All-nth :
    (P : Bp → Type 0) (bps : List Bp) (i : ℕ) {bp : Bp}
    → All P bps
    → get_elem? bps i ≡ some bp
    → P bp
All-nth P [] i h e = cc
All-nth P (c ∷ bps) zero h e = subst P (some-injective _ _ e) h.0
All-nth P (c ∷ bps) (suc i) h e = All-nth P bps i h.1 e

pub erased-not_covered :
    (base : ℕ) (bps : List Bp) (i : ℕ) {bp : Bp}
    → get_elem? bps i ≡ some bp
    → Distinct bps
    → All InRange bps
    → covered base (add64 base bp.addr) (erase_at bps i) ≡ false
unfolding covered
erased-not_covered base [] i e d r = cc
erased-not_covered base (c ∷ bps) zero e d r =
    subst (λ x. covered base (add64 base x.addr) bps ≡ false) (some-injective _ _ e)
      (covered-has_addr base c.addr bps r.0.0 r.1 d.0)
erased-not_covered base (c ∷ bps) (suc i) e d r = ground (
  arith,
  erased-not_covered base bps i e d.1 r.1,
  has_addr-nth c.addr bps i d.0 e,
  All-nth InRange bps i r.1 e,
  r.0.0,
)

-- What `find_bp` finds is the first breakpoint at the target; it finds none only where none is.
pub find_bp-some :
    (base t : ℕ) (bps : List Bp) (i : ℕ)
    → find_bp base t bps ≡ some i
    → (bp : Bp) × (get_elem? bps i ≡ some bp) × (add64 base bp.addr ≡ t)
unfolding find_bp
find_bp-some base t [] i e = cc
find_bp-some base t (c ∷ bps) zero e = (c, refl, ground arith)
find_bp-some base t (c ∷ bps) (suc i) e =
    let h : find_bp base t bps ≡ some i = ground arith in find_bp-some base t bps i h

pub find_bp-none :
    (base t : ℕ) (bps : List Bp) → find_bp base t bps ≡ none → covered base t bps ≡ false
unfolding find_bp covered
find_bp-none base t [] e = refl
find_bp-none base t (c ∷ bps) e = ground (arith, find_bp-none base t bps)
