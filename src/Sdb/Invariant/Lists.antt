-- ===== src/Sdb/Invariant/Lists.antt =====
-- Lists of breakpoints: an added, a removed and a rewritten one.
use advanced_programmin.Prelude.{
  ℕ, zero, suc, ◌≡◌, refl, arith, false, List, [], ◌∷◌, ◌++◌, All, erase_at, ◌==◌,
}
use advanced_programmin.Sdb.Types.{Bp}
use advanced_programmin.Sdb.Breakpoints.{has_addr}
use advanced_programmin.Sdb.Invariant.{Distinct}

pub has_addr-append :
    (a : ℕ) (bps : List Bp) (bp : Bp)
    → has_addr a bps ≡ false
    → (a == bp.addr) ≡ false
    → has_addr a (bps ++ (bp ∷ [])) ≡ false
unfolding has_addr
has_addr-append a [] bp h q = ground arith
has_addr-append a (b ∷ bps) bp h q = ground (arith, has_addr-append a bps bp)

pub Distinct-append :
    (bps : List Bp) (bp : Bp)
    → Distinct bps
    → has_addr bp.addr bps ≡ false
    → Distinct (bps ++ (bp ∷ []))
unfolding has_addr
Distinct-append [] bp d h = (refl, tt)
Distinct-append (b ∷ bps) bp d h =
    (has_addr-append b.addr bps bp d.0 (ground arith), Distinct-append bps bp d.1 (ground arith))

pub has_addr-erase :
    (a : ℕ) (bps : List Bp) (i : ℕ) → has_addr a bps ≡ false → has_addr a (erase_at bps i) ≡ false
unfolding has_addr
has_addr-erase a [] i h = refl
has_addr-erase a (b ∷ bps) zero h = ground arith
has_addr-erase a (b ∷ bps) (suc i) h = ground (arith, has_addr-erase a bps i)

pub Distinct-erase : (bps : List Bp) (i : ℕ) → Distinct bps → Distinct (erase_at bps i)
Distinct-erase [] i d = tt
Distinct-erase (b ∷ bps) zero d = d.1
Distinct-erase (b ∷ bps) (suc i) d = (has_addr-erase b.addr bps i d.0, Distinct-erase bps i d.1)

module _ (P : Bp → Type 0) where
  pub All-append : (bps : List Bp) (bp : Bp) → All P bps → P bp → All P (bps ++ (bp ∷ []))
  All-append [] bp h q = (q, tt)
  All-append (b ∷ bps) bp h q = (h.0, All-append bps bp h.1 q)

  pub All-erase : (bps : List Bp) (i : ℕ) → All P bps → All P (erase_at bps i)
  All-erase [] i h = tt
  All-erase (b ∷ bps) zero h = h.1
  All-erase (b ∷ bps) (suc i) h = (h.0, All-erase bps i h.1)
