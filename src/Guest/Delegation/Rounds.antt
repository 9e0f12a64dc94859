-- ===== src/Guest/Delegation/Rounds.antt =====
-- How many rounds `chunks_exact` takes.
use aragon_zk_governance.Common.{
  ℕ, zero, suc, ◌+◌, ◌*◌, ◌/◌, ◌<◌, ◌≤◌, ◌≡◌, refl, [], arith, ltb, length, drop, Bool-cases,
  length-drop, inl, inr, ltb→lt,
}
use aragon_zk_governance.Config.{Bytes}
use aragon_zk_governance.Guest.Delegation.{chunks_exact, addresses}

-- With too few bytes for another round, none is made.
chunks_exact-short : (fuel : ℕ) (data' : Bytes) → length data' < 20 → chunks_exact fuel data' ≡ []
unfolding chunks_exact
chunks_exact-short zero data' h = refl
chunks_exact-short (suc fuel) data' h = ground arith

chunks_exact-any_fuel :
    (f g : ℕ) (data' : Bytes)
    → length data' < 20 * f + 20
    → length data' < 20 * g + 20
    → chunks_exact f data' ≡ chunks_exact g data'
unfolding chunks_exact
chunks_exact-any_fuel zero g data' hf hg = ground (arith, chunks_exact-short g data' (omega arith))
chunks_exact-any_fuel (suc f) zero data' hf hg = chunks_exact-short (suc f) data' (omega arith)
chunks_exact-any_fuel (suc f) (suc g) data' hf hg =
    let size = length-drop 20 data' in
    elim (Bool-cases (ltb (length data') 20)) [
      | inl short ↦ rw short refl
      | inr long ↦
          let ih = chunks_exact-any_fuel f g (drop 20 data') (ground arith) (ground arith) in
          rw (long, ih) refl
    ]

length-chunks_exact :
    (fuel : ℕ) (data' : Bytes)
    → length data' < 20 * fuel + 20
    → length (chunks_exact fuel data') ≡ length data' / 20
unfolding chunks_exact
length-chunks_exact zero data' h = omega arith
length-chunks_exact (suc fuel) data' h =
    let size = length-drop 20 data' in
    elim (Bool-cases (ltb (length data') 20)) [
      | inl short ↦ rw short (omega (arith, ltb→lt _ _ short))
      | inr long ↦
          let room : 20 ≤ length data' = ground arith in
          rw long (omega (arith, length-chunks_exact fuel (drop 20 data') (omega arith)))
    ]

-- Cutting delegation data ends: as many rounds as there are whole addresses in the data are enough,
-- each round gives one address, and more rounds change nothing.
pub chunks_exact-addresses :
    (fuel : ℕ) (data' : Bytes)
    → length data' / 20 ≤ fuel
    → (chunks_exact fuel data' ≡ addresses data') × (length (addresses data') ≡ length data' / 20)
unfolding addresses
chunks_exact-addresses fuel data' h = (
  chunks_exact-any_fuel fuel (length data') data' (omega arith) (omega arith),
  length-chunks_exact (length data') data' (omega arith),
)
