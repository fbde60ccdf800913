-- ===== src/Builder/Copies.antt =====
-- The loop of mkfs/mksfs.c that copies a regular file block by block.
use moonix.Base.{
  ℕ, zero, suc, ◌+◌, ◌-◌, ◌/◌, ◌%◌, ◌≤◌, ◌<◌, ◌≡◌, ◌≢◌, refl, sym, ap, ◌∙◌, arith, ◌⊎◌, inl, inr,
  Bool, true, false, Bool-cases, [], update, update-at, update-other, Returns, returns,
  Returns-bind, Returns-mono, ltb, ◌==◌, if◌then◌else◌, same_or_not,
}
use moonix.Files.{Inode, InodeItem, block_size}
use moonix.Builder.{Builder, write_block, copy_blocks}
use moonix.Builder.Blocks.{IsCounted, Takes, get_free_block-Takes}
use moonix.Builder.Trees.{Owns}
use moonix.Builder.Growth.{
  Grows, Grows-refl, Grows-trans, Takes-at, written-Grows, write_block-at, put_item-direct,
}

-- The next `l` bytes of a file have been copied from `pos` on, from the item `index` on.
pub record Copied (content : ℕ → ℕ) (l pos index : ℕ) (inode : Inode) (st : Builder)
    (inode' : Inode) (st' : Builder) : Type 0 where
  pub grows : Grows st st'
  pub counted : IsCounted st'
  pub left : st'.freenum + (l + 4095) / block_size ≡ st.freenum
  pub before : (j : ℕ) → j < index → inode'.direct j ≡ inode.direct j
  pub head :
      (inode'.kind ≡ inode.kind) × (inode'.size ≡ inode.size) × (inode'.blocks ≡ inode.blocks)
  pub owned :
      (k : ℕ) → k < l → Owns (st.freemap) st' ((inode'.direct (index + k / block_size)).block)
  pub bytes :
      (k : ℕ)
      → k < l
      → st'.image.bytes ((inode'.direct (index + k / block_size)).block) (k % block_size)
        ≡ content (pos + k)

abbrev part : ℕ → ℕ
part l = if ltb block_size l then block_size else l

part-cases :
    (l : ℕ) → l ≢ 0 → (part l ≡ l) × (l ≤ block_size) ⊎ (part l ≡ block_size) × (block_size < l)
part-cases l h = ground arith

part-blocks : (l : ℕ) → l ≢ 0 → (l - part l + 4095) / block_size + 1 ≡ (l + 4095) / block_size
part-blocks l h = elim (part-cases l h) [
  | inl (whole, small) ↦
      let rest : (l - part l + 4095) / block_size ≡ 0 = omega arith in
      let one : (l + 4095) / block_size ≡ 1 = omega arith in omega arith
  | inr (whole, large) ↦ omega arith
]

part-less : (l : ℕ) → l ≢ 0 → l - part l < l
part-less l h = elim (part-cases l h) [
  | inl small ↦ omega (arith, small.0)
  | inr large ↦ omega (arith, large.0)
]

left-part :
    (l a b c : ℕ)
    → l ≢ 0
    → a + (l - part l + 4095) / block_size ≡ b
    → b + 1 ≡ c
    → a + (l + 4095) / block_size ≡ c
left-part l a b c h e e' = let blocks = part-blocks l h in omega arith

write_block-freemap :
    (b : ℕ) (content : ℕ → ℕ) (pos size : ℕ) (st : Builder)
    → ((write_block b content pos size st).freemap ≡ st.freemap)
      × ((write_block b content pos size st).freenum ≡ st.freenum)
unfolding write_block
write_block-freemap b content pos size st = (refl, refl)

write_block-IsCounted :
    (b : ℕ) (content : ℕ → ℕ) (pos size : ℕ) (st : Builder)
    → IsCounted st
    → IsCounted (write_block b content pos size st)
unfolding write_block
write_block-IsCounted b content pos size st c = c

module _ (content : ℕ → ℕ) (l pos index : ℕ) (inode : Inode) (st st1 : Builder) (ffb : ℕ)
    (inode' : Inode) (st' : Builder) (some_left : l ≢ 0) (t : Takes st ffb st1)
    (r : Copied content
      (l - part l)
      (pos + part l)
      (index + 1)
      (record inode {
        direct = update (inode.direct) index (record { filename = []; block = ffb });
      })
      (write_block ffb content pos (part l) st1)
      inode'
      st') where
  abbrev st2 : Builder
  st2 = write_block ffb content pos (part l) st1

  freemap-st2 : st2.freemap ≡ st1.freemap
  freemap-st2 = (write_block-freemap ffb content pos (part l) st1).0

  st2-Grows : Grows st st2
  st2-Grows = written-Grows st st1 ffb t content pos (part l)

  ffb-taken : st2.freemap ffb ≡ true
  ffb-taken = ap (λ (f : ℕ → Bool). f ffb) freemap-st2 ∙ Takes-at st st1 ffb t

  first-block : (k : ℕ) → k < block_size → (inode'.direct (index + k / block_size)).block ≡ ffb
  first-block k h =
      let here : index + k / block_size ≡ index = omega arith in
      let item : InodeItem = record { filename = []; block = ffb } in
      let at : inode'.direct index ≡ item =
        r.before index (omega arith) ∙ update-at (inode.direct) index item in
      ap (λ j. (inode'.direct j).block) here ∙ ap (λ (item' : InodeItem). item'.block) at

  later-block :
      (k : ℕ)
      → block_size ≤ k
      → (inode'.direct (index + k / block_size)).block
        ≡ (inode'.direct (index + 1 + (k - block_size) / block_size)).block
  later-block k h =
      let there : index + k / block_size ≡ index + 1 + (k - block_size) / block_size =
        omega arith in
      ap (λ j. (inode'.direct j).block) there

  fresh : (n : ℕ) → st2.freemap n ≡ false → st.freemap n ≡ false
  fresh n free = elim (Bool-cases (st.freemap n)) [
    | inr is_free ↦ is_free
    | inl used ↦
        let clash : true ≡ false = sym (st2-Grows.taken n used) ∙ free in absurd (ground arith)
  ]

  owned-one :
      (k : ℕ) → k < l → Owns (st.freemap) st' ((inode'.direct (index + k / block_size)).block)
  owned-one k h = elim (part-cases l some_left) [
    | inl (whole, small) ↦
        rw (first-block k (omega arith)) (t.was_free, (r.grows).taken ffb ffb-taken)
    | inr (whole, large) ↦
        let near : (k < block_size) ⊎ (block_size ≤ k) = omega arith in
        elim near [
          | inl first ↦ rw (first-block k first) (t.was_free, (r.grows).taken ffb ffb-taken)
          | inr later ↦
              let (free, used) = r.owned (k - block_size) (omega arith) in
              rw (later-block k later) (fresh _ free, used)
        ]
  ]

  bytes-first :
      (k : ℕ)
      → k < part l
      → k < block_size
      → st'.image.bytes ((inode'.direct (index + k / block_size)).block) (k % block_size)
        ≡ content (pos + k)
  bytes-first k h small =
      let offset : k % block_size ≡ k = omega arith in
      rw (first-block k small, offset)
        (ap (λ (f : ℕ → ℕ). f k) ((r.grows).bytes ffb ffb-taken)
          ∙ write_block-at ffb content pos (part l) st1 k h)

  bytes-one :
      (k : ℕ)
      → k < l
      → st'.image.bytes ((inode'.direct (index + k / block_size)).block) (k % block_size)
        ≡ content (pos + k)
  bytes-one k h = elim (part-cases l some_left) [
    | inl (whole, small) ↦ bytes-first k (omega arith) (omega arith)
    | inr (whole, large) ↦
        let near : (k < block_size) ⊎ (block_size ≤ k) = omega arith in
        elim near [
          | inl first ↦ bytes-first k (omega arith) first
          | inr later ↦
              let offset : k % block_size ≡ (k - block_size) % block_size = omega arith in
              let place : pos + k ≡ pos + part l + (k - block_size) = omega arith in
              rw (later-block k later, offset, place) (r.bytes (k - block_size) (omega arith))
        ]
  ]

  one-Copied : Copied content l pos index inode st inode' st'
  one-Copied = record {
    grows = Grows-trans st st2 st' st2-Grows (r.grows);
    counted = r.counted;
    left =
        left-part l (st'.freenum) (st1.freenum) (st.freenum) some_left
          (r.left ∙ (write_block-freemap ffb content pos (part l) st1).1) (t.left);
    before = λ j h. r.before j (omega arith) ∙ update-other (inode.direct) index _ j (omega arith);
    head = r.head;
    owned = owned-one;
    bytes = bytes-one;
  }

none-Copied :
    (content : ℕ → ℕ) (l pos index : ℕ) (inode : Inode) (st : Builder)
    → l ≡ 0
    → IsCounted st
    → Copied content l pos index inode st inode st
none-Copied content l pos index inode st e c = record {
  grows = Grows-refl st;
  counted = c;
  left = omega arith;
  before = λ j h. refl;
  head = (refl, refl, refl);
  owned = λ k h. absurd (omega arith);
  bytes = λ k h. absurd (omega arith);
}

copy_fuel : (l fuel l' : ℕ) → l ≤ suc fuel → l' < l → l' ≤ fuel
copy_fuel l fuel l' h h' = omega arith

-- While there are enough free blocks and direct items, `copy_blocks` returns, and the bytes
-- are in the blocks of the items.
pub copy_blocks-Copied :
    (fuel : ℕ) (content : ℕ → ℕ) (l pos index : ℕ) (inode : Inode) (st : Builder)
    → l ≤ fuel
    → index + (l + 4095) / block_size ≤ 12
    → IsCounted st
    → (l + 4095) / block_size ≤ st.freenum
    → Returns
        (λ (inode', st'). Copied content l pos index inode st inode' st')
        (copy_blocks fuel content l pos index inode st)
unfolding copy_blocks
copy_blocks-Copied zero content l pos index inode st enough room c free =
    let e : l ≡ 0 = omega arith in
    let done : l == 0 ≡ true = ground arith in
    rw done (returns (none-Copied content l pos index inode st e c))
copy_blocks-Copied (suc fuel) content l pos index inode st enough room c free =
    elim (same_or_not l 0) [
      | inl e ↦
          let done : l == 0 ≡ true = ground arith in
          rw done (returns (none-Copied content l pos index inode st e c))
      | inr some_left ↦
          let more : l == 0 ≡ false = ground arith in
          let first : 1 ≤ (l + 4095) / block_size = omega arith in
          rw more (
            Returns-bind (get_free_block-Takes st c (omega arith)) (λ (ffb, st1) t.
              let st3 = write_block ffb content pos (part l) st1 in
              let blocks = part-blocks l some_left in
              let less = part-less l some_left in
              let left = t.left in
              let same = (write_block-freemap ffb content pos (part l) st1).1 in
              rw
                (put_item-direct inode index (record { filename = []; block = ffb }) st3
                  (omega arith))
                (Returns-mono
                  (copy_blocks-Copied fuel content (l - part l) (pos + part l) (index + 1) _ st3
                    (copy_fuel l fuel (l - part l) enough less) (omega arith)
                    (write_block-IsCounted ffb content pos (part l) st1 (t.counted))
                    (rw same (omega arith)))
                  (λ (inode', st') r.
                    one-Copied content l pos index inode st st1 ffb inode' st' some_left t r))))
    ]
