-- ===== src/GlueLayer/Relax/Chains.antt =====
-- The loops over the table end at the ends of a chain.
use nyxstone_tricore_gcc.Base.{
  ℕ, zero, suc, ◌+◌, ◌-◌, ◌≤◌, ◌<◌, ◌≡◌, refl, sym, subst, ◌≢◌, ◌⊎◌, inl, inr, false, arith, ◌==◌,
  Bool-cases,
}
use nyxstone_tricore_gcc.GlueLayer.Relax.{
  table_size, predecessor_from, predecessor, head_loop, chain_head, terminal_loop, chain_terminal,
}

-- The second state is reached from the first along the links.
pub data Reaches (more : ℕ → ℕ) : ℕ → ℕ → Type 0 where
  here : (i : ℕ) → Reaches more i i
  link : (i j : ℕ) → more i ≢ 0 → Reaches more (more i) j → Reaches more i j

Reaches-trans : (more : ℕ → ℕ) (i j k : ℕ) → Reaches more i j → Reaches more j k → Reaches more i k
Reaches-trans more _ _ k (here i) q = q
Reaches-trans more _ _ k (link i j h p) q = link i k h (Reaches-trans more (more i) j k p q)

-- Links point to longer encodings, and there are no more lengths than states.
pub record IsTable (more : ℕ → ℕ) : Type 0 where
  pub rank : ℕ → ℕ
  pub rank_small : (i : ℕ) → rank i < table_size
  pub rank_grows : (i : ℕ) → more i ≢ 0 → rank i < rank (more i)

-- A state of the table that is linked to `sub`, or 0.
abbrev IsPredecessor : (ℕ → ℕ) → ℕ → ℕ → Type 0
IsPredecessor more sub p = (p ≡ 0) ⊎ (more p ≡ sub) × (0 < p)

-- No state from `i` on, `n` of them, is linked to `sub`.
abbrev NoneFrom : (ℕ → ℕ) → ℕ → ℕ → ℕ → Type 0
NoneFrom more n i sub = (j : ℕ) → i ≤ j → j < n + i → more j ≢ sub

predecessor_from-IsPredecessor :
    (more : ℕ → ℕ) (n i sub : ℕ) → 0 < i → IsPredecessor more sub (predecessor_from more n i sub)
unfolding predecessor_from
predecessor_from-IsPredecessor more zero i sub h = inl refl
predecessor_from-IsPredecessor more (suc n) i sub h = elim (Bool-cases (more i == sub)) [
  | inl e ↦ rw e (inr (ground arith, h))
  | inr e ↦ rw e (predecessor_from-IsPredecessor more n (suc i) sub (omega arith))
]

predecessor_from-NoneFrom :
    (more : ℕ → ℕ) (n i sub : ℕ) → 0 < i → predecessor_from more n i sub ≡ 0 → NoneFrom more n i sub
unfolding predecessor_from
predecessor_from-NoneFrom more zero i sub h e j low high q = absurd (omega arith)
predecessor_from-NoneFrom more (suc n) i sub h e j low high q = elim (Bool-cases (more i == sub)) [
  | inl found ↦ absurd (ground (arith, h, found, e))
  | inr other ↦ elim (Bool-cases (i == j)) [
    | inl same ↦ ground (arith, same, other, q)
    | inr later ↦
        predecessor_from-NoneFrom more n (suc i) sub (omega arith) (ground (arith, other, e)) j
          (ground arith) (omega arith) q
  ]
]

module _ (more : ℕ → ℕ) (t : IsTable more) where
  open t use {rank, rank_small, rank_grows}

  abbrev pub IsLongest : ℕ → ℕ → Type 0
  IsLongest i j = Reaches more i j × (more j ≡ 0)

  terminal_loop_lem : (n i : ℕ) → table_size ≤ n + rank i → IsLongest i (terminal_loop more n i)
  unfolding terminal_loop
  terminal_loop_lem zero i h = absurd (omega (arith, rank_small i))
  terminal_loop_lem (suc n) i h = elim (Bool-cases (more i == 0)) [
    | inl e ↦ rw e (here i, ground arith)
    | inr e ↦
        let linked : more i ≢ 0 = ground arith in
        let (reached, last) = terminal_loop_lem n (more i) (omega (arith, rank_grows i linked)) in
        rw e (link i _ linked reached, last)
  ]

  -- From every state of a table whose links lead to longer encodings, `chain_terminal` ends at a
  -- state with no link that is reached along the links.
  pub chain_terminal-IsLongest : (i : ℕ) → IsLongest i (chain_terminal more i)
  unfolding chain_terminal
  chain_terminal-IsLongest i = terminal_loop_lem table_size i (omega arith)

  -- No state of the table leads to it, and it leads to `i`.
  abbrev pub IsShortest : ℕ → ℕ → Type 0
  IsShortest i j = Reaches more j i × ((k : ℕ) → 0 < k → k < table_size → more k ≢ j)

  head_loop_lem : (n i : ℕ) → 0 < i → rank i < n → IsShortest i (head_loop more n i)
  unfolding head_loop predecessor
  head_loop_lem zero i p h = absurd (omega arith)
  head_loop_lem (suc n) i p h =
      elim (predecessor_from-IsPredecessor more (table_size - 1) 1 i (omega arith)) [
        | inl e ↦ rw e (
          here i,
          λ k low high. predecessor_from-NoneFrom more 36 1 i (omega arith) e k low (omega arith),
        )
        | inr (linked, positive) ↦
            let before = predecessor_from more (table_size - 1) 1 i in
            let leads : more before ≢ 0 = λ e. omega arith in
            let grows = rank_grows before leads in
            let smaller : rank before < rank i = subst (λ r. rank before < rank r) linked grows in
            let (reached, first) = head_loop_lem n before positive (omega arith) in
            let goes_on : (before == 0) ≡ false = ground (arith, positive) in
            let step : Reaches more before i =
              link before i leads (subst (λ r. Reaches more r i) (sym linked) (here i)) in
            rw goes_on (Reaches-trans more _ before i reached step, first)
      ]

  -- From every state but the sentinel of a table whose links lead to longer encodings,
  -- `chain_head` ends at a state that no state of the table is linked to and that leads to the
  -- state it began with.
  pub chain_head-IsShortest : (i : ℕ) → 0 < i → IsShortest i (chain_head more i)
  unfolding chain_head
  chain_head-IsShortest i p = head_loop_lem table_size i p (rank_small i)

module _ (more : ℕ → ℕ) where
  stays : (i k : ℕ) → Reaches more i k → more i ≡ 0 → i ≡ k
  stays _ _ (here i) e = refl
  stays _ _ (link i k h p) e = absurd (h e)

  one_link : (i k : ℕ) → Reaches more i k → (i ≡ k) ⊎ Reaches more (more i) k
  one_link _ _ (here i) = inl refl
  one_link _ _ (link i k h p) = inr p

  end_unique : (i j k : ℕ) → Reaches more i j → more j ≡ 0 → Reaches more i k → more k ≡ 0 → j ≡ k
  end_unique _ _ k (here i) e q f = stays i k q e
  end_unique _ _ k (link i j h p) e q f = elim (one_link i k q) [
    | inl same ↦ absurd (h (subst (λ r. more r ≡ 0) (sym same) f))
    | inr rest ↦ end_unique (more i) j k p e rest f
  ]

  -- In a table whose links lead to longer encodings, the short form that `chain_head` finds for a
  -- state has the same longest form as the state.
  pub chain_terminal-chain_head :
      IsTable more
      → (i : ℕ) → 0 < i
      → chain_terminal more (chain_head more i) ≡ chain_terminal more i
  chain_terminal-chain_head t i p =
      let (down, last) = chain_terminal-IsLongest more t i in
      let (up, ended) = chain_terminal-IsLongest more t (chain_head more i) in
      let (back, first) = chain_head-IsShortest more t i p in
      end_unique (chain_head more i) _ _ up ended (Reaches-trans more _ i _ back down) last

  -- In a table whose links lead to longer encodings, and for every state but the sentinel:
  -- `chain_head` ends at a state that no state of the table is linked to and that leads to the given
  -- one, `chain_terminal` ends at a state with no link that is reached from the given one, and both
  -- forms of a branch have the same longest form.
  pub chain_head-chain_terminal :
      (t : IsTable more) (i : ℕ)
      → 0 < i
      → IsShortest more t i (chain_head more i)
        × IsLongest more t i (chain_terminal more i)
        × (chain_terminal more (chain_head more i) ≡ chain_terminal more i)
  chain_head-chain_terminal t i p = (
    chain_head-IsShortest more t i p,
    chain_terminal-IsLongest more t i,
    chain_terminal-chain_head t i p,
  )
