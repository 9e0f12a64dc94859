-- ===== src/Guest/Delegation/Addresses.antt =====
-- Cutting the delegation data into addresses, and joining them again.
use aragon_zk_governance.Common.{
  ℕ, zero, suc, ◌%◌, ◌≤◌, ◌≡◌, refl, ap, List, [], ◌∷◌, ◌++◌, arith, false, ltb, length, take, drop,
  All, Bool-cases, length-append, take-append-drop, length-take, length-drop, take-append,
  drop-append, inl, inr, ltb→lt,
}
use aragon_zk_governance.Config.{Address, Bytes}
use aragon_zk_governance.Guest.Delegation.{chunks_exact, addresses}

abbrev pub join : List Address → Bytes
join [] = []
join (a ∷ as') = a ++ join as'

abbrev pub IsAddress : Address → Type 0
IsAddress a = length a ≡ 20

cut-take : {n : ℕ} (a r : Bytes) → length a ≡ n → take n (a ++ r) ≡ a
cut-take a r e = rw (← e) (take-append a r)

cut-drop : {n : ℕ} (a r : Bytes) → length a ≡ n → drop n (a ++ r) ≡ r
cut-drop a r e = rw (← e) (drop-append a r)

long-enough :
    (a : Address) (as' : List Address) → length a ≡ 20 → ltb (length (a ++ join as')) 20 ≡ false
long-enough a as' e = ground (arith, length-append a (join as'))

chunks_exact-join :
    (as' : List Address) (fuel : ℕ)
    → All IsAddress as'
    → length (join as') ≤ fuel
    → chunks_exact fuel (join as') ≡ as'
unfolding chunks_exact
chunks_exact-join [] zero h e = refl
chunks_exact-join [] (suc fuel) h e = refl
chunks_exact-join (a ∷ as') zero h e = absurd (omega (arith, length-append a (join as')))
chunks_exact-join (a ∷ as') (suc fuel) h e =
    let l = length-append a (join as') in
    let size : length a ≡ 20 = h.0 in
    rw (cut-take a (join as') size, cut-drop a (join as') size, long-enough a as' size)
      (ap (λ (r : List Address). a ∷ r) (chunks_exact-join as' fuel h.1 (omega arith)))

nil-of-length : (bs : Bytes) → length bs ≡ 0 → bs ≡ []
nil-of-length [] e = refl
nil-of-length (b ∷ bs) e = absurd (omega arith)

join-chunks_exact :
    (fuel : ℕ) (data' : Bytes)
    → length data' ≤ fuel
    → length data' % 20 ≡ 0
    → (join (chunks_exact fuel data') ≡ data') × All IsAddress (chunks_exact fuel data')
unfolding chunks_exact
join-chunks_exact zero [] h e = (refl, tt)
join-chunks_exact zero (b ∷ bs) h e = elim h [ ]
join-chunks_exact (suc fuel) data' h e = elim (Bool-cases (ltb (length data') 20)) [
  | inl short ↦ rw short (rw (nil-of-length data' (omega (arith, ltb→lt _ _ short))) (refl, tt))
  | inr long ↦
      let size = length-drop 20 data' in
      let room : 20 ≤ length data' = ground arith in
      let ih = join-chunks_exact fuel (drop 20 data') (omega arith) (omega arith) in
      rw long (rw ih.0 (take-append-drop 20 data'), (omega (arith, length-take 20 data'), ih.1))
]

-- Delegation data of a whole number of addresses is cut into those addresses: joined they are the
-- data, and each has 20 bytes.
pub join-addresses :
    (data' : Bytes)
    → length data' % 20 ≡ 0
    → (join (addresses data') ≡ data') × All IsAddress (addresses data')
unfolding addresses
join-addresses data' h = join-chunks_exact (length data') data' (omega arith) h

-- A list of addresses of 20 bytes each is what its concatenation is cut into.
pub addresses-join : (as' : List Address) → All IsAddress as' → addresses (join as') ≡ as'
unfolding addresses
addresses-join as' h = chunks_exact-join as' (length (join as')) h (omega arith)
