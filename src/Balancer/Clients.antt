-- ===== src/Balancer/Clients.antt =====
-- simulator/balancer/balancer.go: `AddClient`.
use Prim.{tt}
use balancer_go.Base.{
  ℕ, ◌≤◌, ◌<◌, ◌≡◌, refl, ap, sym, ◌∙◌, Bool, true, false, ◌||◌, ◌==◌, Option, none, some, List, [],
  ◌∷◌, ◌++◌, arith, Bool-cases, inl, inr,
}
use balancer_go.Model.{ClientKey}
use balancer_go.Model.Keys.{same_key}
use balancer_go.Balancer.Tables.{
  put, put-same, put-other, count, count-append, prepend, given, order_with, replace_first, is_some,
  some-injective,
}
use balancer_go.Balancer.{LoadBalancer, add_client, has_client}
use balancer_go.Balancer.Invariant.{IsBalancer}

-- Another entry is still there, and so is the new one.
abbrev IsReplaced : ℕ → ℕ → List ℕ → Option (List ℕ) → Type 0
IsReplaced old new xs none = Unit
IsReplaced old new xs (some ys) =
    (0 < count new ys) × ((c : ℕ) → ¬ (c ≡ old) → count c xs ≤ count c ys)

prepend_lem :
    (old new x : ℕ) (xs : List ℕ) (o : Option (List ℕ))
    → IsReplaced old new xs o
    → IsReplaced old new (x ∷ xs) (prepend x o)
prepend_lem old new x xs none v = tt
prepend_lem old new x xs (some ys) v = (ground (arith, v.0), λ c n. ground (arith, v.1 c n))

replace_first_lem : (old new : ℕ) (xs : List ℕ) → IsReplaced old new xs (replace_first old new xs)
replace_first_lem old new [] = tt
replace_first_lem old new (x ∷ xs) = elim (Bool-cases (x == old)) [
  | inl e ↦
      let here : (new == new) ≡ true = ground arith in
      let same : x ≡ old = ground arith in
      rw e (
        ground (arith, here),
        λ c n. elim (Bool-cases (x == c)) [
          | inl f ↦ let there : x ≡ c = ground arith in absurd (n (sym there ∙ same))
          | inr f ↦ ground arith
        ],
      )
  | inr e ↦
      rw e (prepend_lem old new x xs (replace_first old new xs) (replace_first_lem old new xs))
]

module _ {S D : Type 0} (key_of : ℕ → ClientKey) (cl : ℕ) (lb : LoadBalancer S D)
    (w : IsBalancer key_of lb) (free : lb.by_key (key_of cl) ≡ none) where
  -- An order in which the new client and the clients of the other keys stand.
  IsOrder : List ℕ → Type 0
  IsOrder order =
      (0 < count cl order)
      × ((k : ClientKey) (c : ℕ) → ¬ (k ≡ key_of cl) → lb.clients k ≡ some c → 0 < count c order)

  registered_client :
      (order : List ℕ) (tx : ClientKey → Option D)
      → IsOrder order
      → IsBalancer key_of (record lb {
        clients = put same_key (key_of cl) (some cl) lb.clients;
        client_tx = tx;
        client_order = order;
      })
  unfolding IsOrder
  registered_client order tx (mine, others) =
      let key = key_of cl in
      let mapped_other : (k : ClientKey) (s : ℕ) → lb.by_key k ≡ some s → ¬ (k ≡ key) =
        λ k s e p. ground (arith, sym (ap lb.by_key p ∙ free) ∙ e) in
      let other : (k : ClientKey)
          → ¬ (k ≡ key)
          → put same_key key (some cl) lb.clients k ≡ lb.clients k =
        λ k n. put-other same_key key k (some cl) lb.clients n in
      record {
        listed = λ s c h.
            let old = w.listed s c h in
            (old.0, other (key_of c) (mapped_other (key_of c) s old.0) ∙ old.1);
        mapped = λ k s e.
            let (c, there, once) = w.mapped k s e in
            (c, other k (mapped_other k s e) ∙ there, once);
        keyed = λ k c e. elim (same_key k key) [
          | yes p ↦
              let same : cl ≡ c =
                some-injective (sym (put-same same_key key k (some cl) lb.clients p) ∙ e) in
              sym (ap key_of same) ∙ sym p
          | no n ↦ w.keyed k c (sym (other k n) ∙ e)
        ];
        ordered = λ k c e. elim (same_key k key) [
          | yes p ↦
              let same : cl ≡ c =
                some-injective (sym (put-same same_key key k (some cl) lb.clients p) ∙ e) in
              rw same at mine
          | no n ↦ others k c n (sym (other k n) ∙ e)
        ];
        tracked = w.tracked;
        registered = w.registered;
        checked = w.checked;
        bounded = w.bounded;
        narrow = w.narrow;
      }

  -- A pointer to a client of another key is another pointer.
  appended-IsOrder : IsOrder (lb.client_order ++ cl ∷ [])
  unfolding IsOrder
  appended-IsOrder = (
    ground (arith, count-append cl lb.client_order (cl ∷ [])),
    λ k c n e. omega (arith, w.ordered k c e, count-append c lb.client_order (cl ∷ [])),
  )

  replaced-IsOrder :
      (previous : ℕ) (order : List ℕ)
      → lb.clients (key_of cl) ≡ some previous
      → IsReplaced previous cl lb.client_order (some order)
      → IsOrder order
  unfolding IsOrder
  replaced-IsOrder previous order e r = (
    r.0,
    λ k c n f. omega (
      arith,
      w.ordered k c f,
      r.1 c (λ p. n (sym (w.keyed k c f) ∙ ap key_of p ∙ w.keyed (key_of cl) previous e)),
    ),
  )

  added_lem :
      (tx : ClientKey → Option D) (order : List ℕ)
      → lb.closed ≡ false
      → IsOrder order
      → let b = record lb {
        clients = put same_key (key_of cl) (some cl) lb.clients;
        client_tx = tx;
        client_order = order;
      } in
        IsBalancer key_of b × (has_client key_of (some cl) b ≡ true)
  unfolding has_client
  added_lem tx order up o =
      let there : put same_key (key_of cl) (some cl) lb.clients (key_of cl) ≡ some cl =
        put-same same_key (key_of cl) (key_of cl) (some cl) lb.clients refl in
      let here : (cl == cl) ≡ true = ground arith in
      (registered_client order tx o, simp (up, there) here)

  given-IsOrder :
      (previous : ℕ) (o : Option (List ℕ))
      → lb.clients (key_of cl) ≡ some previous
      → IsReplaced previous cl lb.client_order o
      → IsOrder (given (lb.client_order ++ cl ∷ []) o)
  given-IsOrder previous none e r = appended-IsOrder
  given-IsOrder previous (some order) e r = replaced-IsOrder previous order e r

  order_with-IsOrder :
      (o : Option ℕ) → lb.clients (key_of cl) ≡ o → IsOrder (order_with o cl lb.client_order)
  order_with-IsOrder none e = appended-IsOrder
  order_with-IsOrder (some previous) e =
      given-IsOrder previous (replace_first previous cl lb.client_order) e
        (replace_first_lem previous cl lb.client_order)

unmapped_lem : (o : Option ℕ) → is_some o ≡ false → o ≡ none
unmapped_lem none e = refl
unmapped_lem (some p) e = ground (arith, e)

module _ {S D : Type 0} (key_of : ℕ → ClientKey) where
  abbrev is_refused : ℕ → Bool → LoadBalancer S D → Bool
  is_refused cl terminated lb = lb.closed || terminated || is_some (lb.by_key (key_of cl))

  -- What `add_client` gives for a client's address and a Sender.
  abbrev IsAdded : ℕ → Bool → LoadBalancer S D → Option (LoadBalancer S D) → Type 0
  IsAdded cl terminated lb none = is_refused cl terminated lb ≡ true
  IsAdded cl terminated lb (some b) =
      (is_refused cl terminated lb ≡ false)
      × IsBalancer key_of b
      × (has_client key_of (some cl) b ≡ true)

  -- A client is refused exactly for a closed balancer, a client that has terminated, or a key that is
  -- mapped. Otherwise the balancer has the client afterwards, and its tables agree.
  pub add_client-IsBalancer :
      (cl : ℕ) (terminated : Bool) (send : D) (lb : LoadBalancer S D)
      → IsBalancer key_of lb
      → IsAdded cl terminated lb (add_client key_of (some cl) terminated (some send) lb)
  unfolding add_client
  add_client-IsBalancer cl terminated send lb w = elim (Bool-cases (is_refused cl terminated lb)) [
    | inl r ↦ rw r r
    | inr r ↦
        let up : lb.closed ≡ false = ground (arith, r) in
        let free = unmapped_lem (lb.by_key (key_of cl)) (ground (arith, r)) in
        let (valid, there) =
          added_lem key_of cl lb w free (put same_key (key_of cl) (some send) lb.client_tx)
            (order_with (lb.clients (key_of cl)) cl lb.client_order) up
            (order_with-IsOrder key_of cl lb w free (lb.clients (key_of cl)) refl) in
        rw r (r, valid, there)
  ]
