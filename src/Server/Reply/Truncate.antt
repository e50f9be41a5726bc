-- ===== src/Server/Reply/Truncate.antt =====
-- What `truncateForUDP` keeps.
use shadow_dns.Prelude.{
  ℕ, zero, suc, ◌+◌, ◌/◌, ◌≤◌, ◌<◌, ◌≡◌, ◌⊎◌, inl, inr, refl, sym, ◌∙◌, ap, true, List, [], ◌∷◌,
  some, arith, ltb, leb, length, take, Bool-cases,
}
use shadow_dns.Dns.{Msg, Rr}
use shadow_dns.Server.{Calls}
use shadow_dns.Server.Reply.{with_prefix, search_prefix, truncate_for_udp}

take-length : (rrs : List Rr) → take (length rrs) rrs ≡ rrs
take-length [] = refl
take-length (rr ∷ rrs) = ap (◌∷◌ rr) (take-length rrs)

-- The message with the first records of the answer, marked as truncated.
abbrev pub cut_at : Msg → ℕ → Msg
cut_at m n = record (with_prefix m n) { truncated = true }

module _ (calls : Calls) (m : Msg) (budget : ℕ) (size : ℕ → ℕ) where
  -- Every prefix of the answer packs, and a longer one to no fewer bytes.
  pub record Packs : Type 0 where
    pub packs : (n : ℕ) → calls.pack_size (with_prefix m n) ≡ some (size n)
    pub grows : (i j : ℕ) → i ≤ j → size i ≤ size j

  -- The longest prefix that fits into the budget, or the empty one.
  pub record IsLongest (n : ℕ) : Type 0 where
    pub within : n ≤ length m.answer
    pub fits : (n ≡ 0) ⊎ (size n ≤ budget)
    pub longer : (k : ℕ) → n < k → k ≤ length m.answer → budget < size k

  search_prefix-IsLongest :
      (fuel lo hi : ℕ)
      → Packs
      → hi < fuel + lo
      → lo ≤ length m.answer
      → hi ≤ length m.answer
      → (lo ≡ 0) ⊎ (size lo ≤ budget)
      → budget < size hi
      → (n : ℕ) × (search_prefix calls fuel m budget lo hi ≡ some (some n)) × IsLongest n
  unfolding search_prefix
  search_prefix-IsLongest zero lo hi p enough low high fits over = elim fits [
    | inl e ↦ absurd (omega (arith, e, enough))
    | inr f ↦ absurd (omega (arith, p.grows hi lo (omega (arith, enough)), f, over))
  ]
  search_prefix-IsLongest (suc fuel) lo hi p enough low high fits over =
      let mid = (lo + hi) / 2 in
      elim (Bool-cases (ltb (lo + 1) hi)) [
        | inr done ↦ (
          lo,
          rw done refl,
          record {
            within = low;
            fits = fits;
            longer = λ k lt le.
                let more = p.grows hi k (ground (arith, done, lt)) in omega (arith, more, over);
          },
        )
        | inl more ↦ elim (Bool-cases (leb (size mid) budget)) [
          | inl below ↦
              let (n, e, longest) =
                search_prefix-IsLongest fuel mid hi p (ground (arith, more, enough))
                  (ground (arith, more, high)) high (inr (ground (arith, below))) over in
              (n, rw (more, p.packs mid, below) e, longest)
          | inr above ↦
              let (n, e, longest) =
                search_prefix-IsLongest fuel lo mid p (ground (arith, more, enough)) low
                  (ground (arith, more, high)) fits (ground (arith, above)) in
              (n, rw (more, p.packs mid, above) e, longest)
        ]
      ]

  whole : (n : ℕ) → n ≡ length m.answer → with_prefix m n ≡ m
  whole n e =
      ap (λ (rrs : List Rr). record m { answer = rrs })
        (ap (λ (k : ℕ). take k m.answer) e ∙ take-length m.answer)

  -- Where every prefix of the answer packs, a longer one to no fewer bytes, `truncateForUDP` ends
  -- and answers one of two messages. If the whole message fits into the budget, it is unchanged.
  -- Else it keeps the records of the longest prefix of the answer that fits, or none if none does,
  -- in order, and is marked as truncated.
  pub truncate_for_udp-IsLongest :
      Packs
      → ((size (length m.answer) ≤ budget) × (truncate_for_udp calls m budget ≡ some m))
        ⊎ ((budget < size (length m.answer))
            × (n : ℕ) × IsLongest n
            × (truncate_for_udp calls m budget ≡ some (cut_at m n)))
  unfolding truncate_for_udp
  truncate_for_udp-IsLongest p =
      let all = length m.answer in
      let packed : calls.pack_size m ≡ some (size all) =
        sym (ap calls.pack_size (whole all refl)) ∙ p.packs all in
      elim (Bool-cases (leb (size all) budget)) [
        | inl fits ↦ inl (ground (arith, fits), rw (truncate_for_udp, packed, fits) refl)
        | inr over ↦
            let above : budget < size all = ground (arith, over) in
            let (n, e, longest) =
              search_prefix-IsLongest (suc all) 0 all p (omega arith) (omega arith) (omega arith)
                (inl refl) above in
            inr (above, n, longest, rw (truncate_for_udp, packed, over, e) refl)
      ]
