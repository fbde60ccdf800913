-- ===== src/Builder/Growth.antt =====
-- What an image of mkfs/mksfs.c keeps while blocks are taken and written.
use moonix.Base.{
  ℕ, ◌+◌, ◌<◌, ◌≡◌, ◌≢◌, refl, sym, ap, ◌∙◌, arith, Bool, true, false, update, update-at,
  update-other, ok, ltb, ◌==◌,
}
use moonix.Files.{Image, Inode, InodeItem}
use moonix.Builder.{Builder, write_block, put_item}
use moonix.Builder.Blocks.{Takes}
use moonix.Builder.Trees.{Carries}

-- What the blocks hold that were taken is as it was.
pub record Grows (st st' : Builder) : Type 0 where
  pub taken : (n : ℕ) → st.freemap n ≡ true → st'.freemap n ≡ true
  pub inode : (n : ℕ) → st.freemap n ≡ true → st'.image.inode n ≡ st.image.inode n
  pub bytes : (n : ℕ) → st.freemap n ≡ true → st'.image.bytes n ≡ st.image.bytes n

pub Grows-refl : (st : Builder) → Grows st st
Grows-refl st = record { taken = λ n h. h; inode = λ n h. refl; bytes = λ n h. refl }

pub Grows-trans : (st1 st2 st3 : Builder) → Grows st1 st2 → Grows st2 st3 → Grows st1 st3
Grows-trans st1 st2 st3 g h = record {
  taken = λ n used. h.taken n (g.taken n used);
  inode = λ n used. h.inode n (g.taken n used) ∙ g.inode n used;
  bytes = λ n used. h.bytes n (g.taken n used) ∙ g.bytes n used;
}

pub Grows-Carries : (base : ℕ → Bool) (st st' : Builder) → Grows st st' → Carries base st base st'
Grows-Carries base st st' g = record {
  owned = λ n (free, used). (free, g.taken n used);
  inode = λ n (free, used). g.inode n used;
  bytes = λ n (free, used). g.bytes n used;
}

module _ (st st1 : Builder) (b : ℕ) (t : Takes st b st1) where
  pub Takes-at : st1.freemap b ≡ true
  Takes-at = ap (λ (f : ℕ → Bool). f b) (t.taken) ∙ update-at (st.freemap) b true

  pub Takes-other : (n : ℕ) → st.freemap n ≡ true → b ≢ n
  Takes-other n used e =
      let clash : true ≡ false = sym used ∙ ap (st.freemap) (sym e) ∙ t.was_free in
      absurd (ground arith)

  pub Takes-used : (n : ℕ) → st.freemap n ≡ true → st1.freemap n ≡ true
  Takes-used n used =
      ap (λ (f : ℕ → Bool). f n) (t.taken)
      ∙ update-other (st.freemap) b true n (Takes-other n used)
      ∙ used

  pub Takes-Grows : Grows st st1
  Takes-Grows = record {
    taken = Takes-used;
    inode = λ n used. ap (λ (image : Image). image.inode n) (t.image);
    bytes = λ n used. ap (λ (image : Image). image.bytes n) (t.image);
  }

  pub written-Grows :
      (content : ℕ → ℕ) (pos size : ℕ) → Grows st (write_block b content pos size st1)
  unfolding write_block
  written-Grows content pos size = record {
    taken = Takes-used;
    inode = λ n used.
        update-other (st1.image.inode) b _ n (Takes-other n used)
        ∙ ap (λ (image : Image). image.inode n) (t.image);
    bytes = λ n used.
        update-other (st1.image.bytes) b _ n (Takes-other n used)
        ∙ ap (λ (image : Image). image.bytes n) (t.image);
  }

pub write_block-at :
    (b : ℕ) (content : ℕ → ℕ) (pos size : ℕ) (st : Builder) (k : ℕ)
    → k < size
    → (write_block b content pos size st).image.bytes b k ≡ content (pos + k)
unfolding write_block
write_block-at b content pos size st k h =
    let inside : ltb k size ≡ true = ground arith in
    let same : b == b ≡ true = ground arith in rw (same, inside) refl

pub put_item-direct :
    (inode : Inode) (index : ℕ) (item : InodeItem) (st : Builder)
    → index < 12
    → put_item inode index item st
      ≡ ok (record inode { direct = update (inode.direct) index item }, st)
unfolding put_item
put_item-direct inode index item st h = let few : ltb index 12 ≡ true = ground arith in rw few refl
