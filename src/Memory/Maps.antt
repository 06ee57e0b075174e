-- ===== src/Memory/Maps.antt =====
-- What `set_entry` and `orphan_from` do to the entries of a map that hashes are the keys of.
use stacks_blockchain_rosett.Base.{
  ℕ, ◌≤◌, ◌<◌, ◌≡◌, ◌≢◌, ◌⊎◌, refl, sym, ap, ◌∙◌, inl, inr, Bool, true, false, List, [], ◌∷◌, ◌==◌,
  ==_iff, leb, if◌then◌else◌, Bool-cases, In, some, arith,
}
use stacks_blockchain_rosett.Datastore.Common.{Hash}
use stacks_blockchain_rosett.Memory.Store.{same_hash, set_entry, orphan_from}
use stacks_blockchain_rosett.Memory.Queries.{get_entry}

abbrev pub DistinctKeys : {V : Type 0} → List (Hash × V) → Type 0
DistinctKeys [] = Unit
DistinctKeys {V} (e ∷ es) = ((f : Hash × V) → In f es → f.0 ≢ e.0) × DistinctKeys es

differ : (j k : Hash) → (j == k) ≡ false → j ≢ k
differ j k f e = ground arith

module _ {V : Type 0} where
  abbrev first : Hash × V → Hash
  first e = e.0

  pub In-set_entry :
      (k : Hash) (v : V) (m : List (Hash × V)) (e : Hash × V)
      → DistinctKeys m
      → In e (set_entry same_hash k v m)
      → (e ≡ (k, v)) ⊎ (In e m × (e.0 ≢ k))
  unfolding set_entry
  In-set_entry k v [] e d (inl h) = inl h
  In-set_entry k v [] e d (inr h) = absurd h
  In-set_entry k v ((j, w) ∷ m) e d h = elim (Bool-cases (j == k)) [
    | inl t ↦
        let same : j ≡ k = (==_iff j k).0 t in
        let h' : In e ((j, v) ∷ m) = rw t at h in
        elim h' [
          | inl here ↦ inl (here ∙ ap (λ i. (i, v)) same)
          | inr there ↦ inr (inr there, λ q. d.0 e there (q ∙ sym same))
        ]
    | inr f ↦
        let h' : In e ((j, w) ∷ set_entry same_hash k v m) = rw f at h in
        elim h' [
          | inl here ↦ inr (inl here, λ q. differ j k f (sym (ap first here) ∙ q))
          | inr there ↦ elim (In-set_entry k v m e d.1 there) [
            | inl new ↦ inl new
            | inr old ↦ inr (inr old.0, old.1)
          ]
        ]
  ]

  pub get_entry-set_entry :
      (k : Hash) (v : V) (m : List (Hash × V))
      → get_entry same_hash k (set_entry same_hash k v m) ≡ some v
  unfolding get_entry set_entry
  get_entry-set_entry k v [] = ground arith
  get_entry-set_entry k v ((j, w) ∷ m) = ground (arith, get_entry-set_entry k v m)

  pub set_entry-DistinctKeys :
      (k : Hash) (v : V) (m : List (Hash × V))
      → DistinctKeys m
      → DistinctKeys (set_entry same_hash k v m)
  unfolding set_entry
  set_entry-DistinctKeys k v [] d = (λ f h. absurd h, tt)
  set_entry-DistinctKeys k v ((j, w) ∷ m) d = elim (Bool-cases (j == k)) [
    | inl t ↦ rw t d
    | inr f ↦ rw f (
      λ e h. elim (In-set_entry k v m e d.1 h) [
        | inl new ↦ λ q. differ j k f (sym q ∙ ap first new)
        | inr old ↦ d.0 e old.0
      ],
      set_entry-DistinctKeys k v m d.1,
    )
  ]

  -- An entry below the height stays, the others are orphaned; the keys stay.
  pub In-orphan_from :
      (height : V → ℕ) (orphaned : V → V) (h : ℕ) (m : List (Hash × V)) (e : Hash × V)
      → In e (orphan_from height orphaned h m)
      → (f : Hash × V) × In f m
        × (((e ≡ f) × (height f.1 < h)) ⊎ ((e ≡ (f.0, orphaned f.1)) × (h ≤ height f.1)))
  unfolding orphan_from
  In-orphan_from height orphaned h [] e i = absurd i
  In-orphan_from height orphaned h (f ∷ m) e (inl here) = elim (Bool-cases (leb h (height f.1))) [
    | inl t ↦ (f, inl refl, inr (rw t at here, ground arith))
    | inr n ↦ (f, inl refl, inl (rw n at here, ground arith))
  ]
  In-orphan_from height orphaned h (f ∷ m) e (inr there) =
      let r = In-orphan_from height orphaned h m e there in (r.0, inr r.1, r.2)

  pub orphan_from-DistinctKeys :
      (height : V → ℕ) (orphaned : V → V) (h : ℕ) (m : List (Hash × V))
      → DistinctKeys m
      → DistinctKeys (orphan_from height orphaned h m)
  unfolding orphan_from
  orphan_from-DistinctKeys height orphaned h [] d = tt
  orphan_from-DistinctKeys height orphaned h (f ∷ m) d = (
    λ e i.
        let r = In-orphan_from height orphaned h m e i in
        λ q. d.0 r.0 r.1 (key e r.0 r.2 ∙ (q ∙ mark (leb h (height f.1)))),
    orphan_from-DistinctKeys height orphaned h m d.1,
  )
    where
      key :
          (e g : Hash × V)
          → ((e ≡ g) × (height g.1 < h)) ⊎ ((e ≡ (g.0, orphaned g.1)) × (h ≤ height g.1))
          → g.0 ≡ e.0
      key e g (inl k) = ap first (sym k.0)
      key e g (inr k) = ap first (sym k.0)

      mark : (b : Bool) → (if b then (f.0, orphaned f.1) else f).0 ≡ f.0
      mark true = refl
      mark false = refl
