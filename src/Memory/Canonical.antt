-- ===== src/Memory/Canonical.antt =====
-- The canonical blocks of a MemoryDataStore.
use stacks_blockchain_rosett.Base.{
  ℕ, ◌<◌, ◌≡◌, ◌≢◌, refl, sym, ap, ◌∙◌, inl, inr, true, false, List, [], ◌∷◌, if◌then◌else◌,
  Bool-cases, In, arith,
}
use stacks_blockchain_rosett.Datastore.Common.{Hash, DbBlock}
use stacks_blockchain_rosett.Memory.Store.{
  same_hash, set_entry, orphan_from, orphaned_block, MemoryDataStore, update_canonical_status,
  competes, reorg_detected, update_block,
}
use stacks_blockchain_rosett.Memory.Maps.{
  DistinctKeys, In-set_entry, set_entry-DistinctKeys, In-orphan_from, orphan_from-DistinctKeys,
}

abbrev pub Blocks : Type 0
Blocks = List (Hash × DbBlock)

-- A block stands under its hash, once, and no height has two canonical blocks.
pub record IsStore (m : Blocks) : Type 0 where
  pub distinct : DistinctKeys m
  pub keyed : (e : Hash × DbBlock) → In e m → e.0 ≡ e.1.block_hash
  pub one_at_height :
      (e f : Hash × DbBlock)
      → In e m
      → In f m
      → e.1.canonical ≡ true
      → f.1.canonical ≡ true
      → e.1.block_height ≡ f.1.block_height
      → e ≡ f

-- The map of blocks after the test for a reorganisation.
abbrev pub marked : DbBlock → Blocks → Blocks
marked block m =
    if reorg_detected block m
    then orphan_from (λ (b : DbBlock). b.block_height) orphaned_block block.block_height m
    else m

-- Where an entry comes from, and that a canonical one is unchanged.
record Marked (block : DbBlock) (m : Blocks) (e : Hash × DbBlock) : Type 0 where
  origin : Hash × DbBlock
  old : In origin m
  key : e.0 ≡ origin.0
  hash : e.1.block_hash ≡ origin.1.block_hash
  unchanged : e.1.canonical ≡ true → e ≡ origin
  apart :
      e.1.canonical ≡ true
      → e.1.block_height ≡ block.block_height
      → e.1.block_hash ≡ block.block_hash

no_competitor :
    (block : DbBlock) (m : Blocks) (e : Hash × DbBlock)
    → reorg_detected block m ≡ false
    → In e m
    → e.1.canonical ≡ true
    → e.1.block_height ≡ block.block_height
    → e.1.block_hash ≡ block.block_hash
unfolding reorg_detected competes
no_competitor block [] e none m c h = absurd m
no_competitor block (f ∷ fs) e none (inr m) c h = no_competitor block fs e (ground arith) m c h
no_competitor block (f ∷ fs) e none (inl same) c h =
    ground (arith, ap (λ (x : Hash × DbBlock). x.1) same)

abbrev hash_of : Hash × DbBlock → Hash
hash_of e = e.1.block_hash

abbrev height_of : Hash × DbBlock → ℕ
height_of e = e.1.block_height

below-Marked :
    (block : DbBlock) (m : Blocks) (e g : Hash × DbBlock)
    → In g m
    → e ≡ g
    → g.1.block_height < block.block_height
    → Marked block m e
below-Marked block m e g i same low = record {
  origin = g;
  old = i;
  key = ap (λ (x : Hash × DbBlock). x.0) same;
  hash = ap hash_of same;
  unchanged = λ c. same;
  apart = λ c h. absurd (omega (arith, low, h, ap height_of same));
}

orphaned-Marked :
    (block : DbBlock) (m : Blocks) (e g : Hash × DbBlock)
    → In g m
    → e ≡ (g.0, orphaned_block g.1)
    → Marked block m e
orphaned-Marked block m e g i same = record {
  origin = g;
  old = i;
  key = ap (λ (x : Hash × DbBlock). x.0) same;
  hash = ap hash_of same;
  unchanged = λ c. let flag = ap (λ (x : Hash × DbBlock). x.1.canonical) same in absurd (cc);
  apart = λ c h. let flag = ap (λ (x : Hash × DbBlock). x.1.canonical) same in absurd (cc);
}

Marked-marked :
    (block : DbBlock) (m : Blocks) (e : Hash × DbBlock) → In e (marked block m) → Marked block m e
Marked-marked block m e i = elim (Bool-cases (reorg_detected block m)) [
  | inr f ↦
      let i' : In e m = rw f at i in
      record {
        origin = e;
        old = i';
        key = refl;
        hash = refl;
        unchanged = λ c. refl;
        apart = λ c h. no_competitor block m e f i' c h;
      }
  | inl t ↦
      let r =
        In-orphan_from (λ (b : DbBlock). b.block_height) orphaned_block block.block_height m e
          (rw t at i) in
      elim r.2 [
        | inl (same, low) ↦ below-Marked block m e r.0 r.1 same low
        | inr (same, high) ↦ orphaned-Marked block m e r.0 r.1 same
      ]
]

pub marked-DistinctKeys :
    (block : DbBlock) (m : Blocks) → DistinctKeys m → DistinctKeys (marked block m)
marked-DistinctKeys block m d = elim (Bool-cases (reorg_detected block m)) [
  | inr f ↦ rw f d
  | inl t ↦ rw t (
      orphan_from-DistinctKeys (λ (b : DbBlock). b.block_height) orphaned_block block.block_height m
        d)
]

-- The map of blocks after `updateBlock`.
abbrev pub stored : DbBlock → Blocks → Blocks
stored block m = set_entry same_hash block.block_hash block (marked block m)

-- An entry that was there has another hash, so it is no canonical one of the same height.
no_rival :
    (block : DbBlock) (m : Blocks) (e : Hash × DbBlock)
    → IsStore m
    → In e (marked block m)
    → e.0 ≢ block.block_hash
    → e.1.canonical ≡ true
    → e.1.block_height ≢ block.block_height
no_rival block m e s i other c h =
    let k = Marked-marked block m e i in
    other (k.key ∙ (s.keyed k.origin k.old ∙ (sym k.hash ∙ k.apart c h)))

pub stored-IsStore : (block : DbBlock) (m : Blocks) → IsStore m → IsStore (stored block m)
stored-IsStore block m s =
    let d = marked-DistinctKeys block m s.distinct in
    let split = λ (e : Hash × DbBlock) (i : In e (stored block m)).
      In-set_entry block.block_hash block (marked block m) e d i in
    record {
      distinct = set_entry-DistinctKeys block.block_hash block (marked block m) d;
      keyed = λ e i. elim (split e i) [
        | inl new ↦ ap (λ (x : Hash × DbBlock). x.0) new ∙ sym (ap hash_of new)
        | inr old ↦
            let k = Marked-marked block m e old.0 in k.key ∙ (s.keyed k.origin k.old ∙ sym k.hash)
      ];
      one_at_height = λ e f i j c c' h. elim (split e i) [
        | inl new ↦ elim (split f j) [
          | inl new' ↦ new ∙ sym new'
          | inr old' ↦ absurd (no_rival block m f s old'.0 old'.1 c' (sym h ∙ ap height_of new))
        ]
        | inr old ↦ elim (split f j) [
          | inl new' ↦ absurd (no_rival block m e s old.0 old.1 c (h ∙ ap height_of new'))
          | inr old' ↦ both_old e f old.0 old'.0 c c' h
        ]
      ];
    }
  where
    both_old :
        (e f : Hash × DbBlock)
        → In e (marked block m)
        → In f (marked block m)
        → e.1.canonical ≡ true
        → f.1.canonical ≡ true
        → e.1.block_height ≡ f.1.block_height
        → e ≡ f
    both_old e f i j c c' h =
        let k = Marked-marked block m e i in
        let l = Marked-marked block m f j in
        let ke = k.unchanged c in
        let lf = l.unchanged c' in
        ke
        ∙ (s.one_at_height k.origin l.origin k.old l.old
              (ap (λ (x : Hash × DbBlock). x.1.canonical) (sym ke) ∙ c)
              (ap (λ (x : Hash × DbBlock). x.1.canonical) (sym lf) ∙ c')
              (ap height_of (sym ke) ∙ (h ∙ ap height_of lf))
            ∙ sym lf)

pub update_block-blocks :
    (block : DbBlock) (m : MemoryDataStore) → (update_block block m).blocks ≡ stored block m.blocks
unfolding update_block update_canonical_status
update_block-blocks block m = elim (Bool-cases (reorg_detected block m.blocks)) [
  | inl t ↦ rw t refl
  | inr f ↦ rw f refl
]
