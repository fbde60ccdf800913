-- ===== src/Builder/Entries.antt =====
-- `walk` of mkfs/mksfs.c: the entries of a directory in an image.
use moonix.Base.{
  length, ltb, ℕ, ◌+◌, ◌/◌, ◌≤◌, ◌<◌, ◌≡◌, refl, sym, ap, ◌∙◌, arith, inl, inr, Bool, true, false,
  Bool-cases, List, ◌∷◌, ◌++◌, update, update-at, update-other, Run, ◌>>=◌, Returns, returns,
  Returns-bind, Returns-mono, if◌then◌else◌,
}
use moonix.Files.{Inode, InodeItem, block_size, type_dir, same_name, slash}
use moonix.Builder.{
  Builder, Layout, name_inode, name_item, Folder, nothing, reg, dir, other, copy_inode_to_block,
  put_item, is_dots, dot, dot_dot, new_dir, set_dots, rootdir, add_entries,
}
use moonix.Builder.Blocks.{IsCounted, Takes, get_free_block-Takes}
use moonix.Builder.Trees.{
  Entry, file, folder, At, Stored, Carries, At-carried, Stored-carried, count_items,
}
use moonix.Builder.Finds.{AreSmall}
use moonix.Builder.Growth.{
  Grows, Grows-refl, Grows-trans, Grows-Carries, Takes-at, Takes-other, Takes-Grows,
  put_item-direct,
}
use moonix.Builder.Regular.{
  Grows-free, inode-at, copy_inode-Grows, copy_inode-IsCounted, copy_inode-same, add_file-FileAdded,
}

-- The blocks that the entries take.
abbrev pub need : Folder → ℕ
need nothing = 0
need (other name rest) = need rest
need (reg name size content rest) =
    (if is_dots name then 0 else 1 + (size + 4095) / block_size) + need rest
need (dir name inner rest) = (if is_dots name then 0 else 1 + need inner) + need rest

-- `n` blocks have been taken and `c` items added from `index` on, of which `S` holds.
pub record Filled (st : Builder) (n c : ℕ) (S : Builder → (ℕ → InodeItem) → Type 0) (index : ℕ)
    (inode : Inode) (inode' : Inode) (index' : ℕ) (st' : Builder) : Type 0 where
  pub grows : Grows st st'
  pub counted : IsCounted st'
  pub left : st'.freenum + n ≡ st.freenum
  pub items : index' ≡ index + c
  pub before : (j : ℕ) → j < index → inode'.direct j ≡ inode.direct j
  pub kind : inode'.kind ≡ inode.kind
  pub stored : S st' (inode'.direct)

abbrev pub Fills : Builder → Folder → ℕ → Inode → Inode × ℕ × Builder → Type 0
Fills st f index inode (inode', index', st') =
    Filled st (need f) (count_items f) (λ st'' items. Stored (st.freemap) st'' items index f) index
      inode inode' index' st'

-- What is stored in blocks that were free later was stored in blocks that were free before.
later-Carries : (st st1 st' : Builder) → Grows st st1 → Carries (st1.freemap) st' (st.freemap) st'
later-Carries st st1 st' g = record {
  owned = λ n (free, used). (Grows-free st st1 n g free, used);
  inode = λ n h. refl;
  bytes = λ n h. refl;
}

-- The item of an entry, and behind it those of the other entries.
item-Filled :
    (st st1 : Builder) (n : ℕ) (e : Entry) (name : List ℕ) (b : ℕ) (rest : Folder) (index : ℕ)
    (inode : Inode) (inode' : Inode) (index' : ℕ) (st' : Builder)
    → Grows st st1
    → At (st.freemap) st1 b e
    → st1.freenum + n ≡ st.freenum
    → Fills st1 rest
        (index + 1)
        (record inode {
          direct = update (inode.direct) index (record { filename = name; block = b });
        })
        (inode', index', st')
    → Filled st
        (n + need rest)
        (1 + count_items rest)
        (λ st'' items.
          ((items index).filename ≡ name)
          × At (st.freemap) st'' ((items index).block) e
          × Stored (st.freemap) st'' items (index + 1) rest)
        index
        inode
        inode'
        index'
        st'
item-Filled st st1 n e name b rest index inode inode' index' st' g held left r =
    let item : InodeItem = record { filename = name; block = b } in
    let at : inode'.direct index ≡ item =
      r.before index (omega arith) ∙ update-at (inode.direct) index item in
    let carried =
      At-carried (st.freemap) st1 (st.freemap) st' (Grows-Carries (st.freemap) st1 st' (r.grows)) b
        e held in
    let items = r.items in
    let rest_left = r.left in
    record {
      grows = Grows-trans st st1 st' g (r.grows);
      counted = r.counted;
      left = omega arith;
      items = omega arith;
      before =
          λ j h. r.before j (omega arith) ∙ update-other (inode.direct) index item j (omega arith);
      kind = r.kind;
      stored = (
        ap (λ (i : InodeItem). i.filename) at,
        rw at carried,
        Stored-carried (st1.freemap) st' (st.freemap) st' (later-Carries st st1 st' g) rest
            (inode'.direct) (index + 1) (r.stored),
      );
    }

nothing-Filled :
    (st : Builder) (index : ℕ) (inode : Inode)
    → IsCounted st
    → Fills st nothing index inode (inode, index, st)
nothing-Filled st index inode c = record {
  grows = Grows-refl st;
  counted = c;
  left = omega arith;
  items = omega arith;
  before = λ j h. refl;
  kind = refl;
  stored = tt;
}

module _ (junk : ℕ → Inode) where
  -- What `walk` is called with for a directory in `dir_name`.
  abbrev fresh_dir : Layout → List ℕ → List ℕ → ℕ → ℕ → Inode
  fresh_dir layout path name up b = set_dots path (new_dir junk layout name up b) b

  fresh_dir-dots :
      (layout : Layout) (path name : List ℕ) (up b : ℕ)
      → length name < 28
      → ((fresh_dir layout path name up b).kind ≡ type_dir)
        × (((fresh_dir layout path name up b).direct 0).filename ≡ dot)
        × (((fresh_dir layout path name up b).direct 1).filename ≡ dot_dot)
  unfolding set_dots new_dir name_inode
  fresh_dir-dots layout path name up b short =
      let named : ltb (length name) 28 ≡ true = ground arith in
      elim (Bool-cases (same_name path rootdir)) [
        | inl is_root ↦ rw (is_root, named) (refl, refl, refl)
        | inr below ↦ rw (below, named) (refl, refl, refl)
      ]

module _ (st st1 st2 : Builder) (b : ℕ) (dinode : Inode) (t : Takes st b st1) where
  abbrev closed : Builder
  closed = copy_inode_to_block b dinode st2

  closed-Carries : Carries (st1.freemap) st2 (st.freemap) closed
  unfolding copy_inode_to_block
  closed-Carries = record {
    owned = λ n (free, used). (Grows-free st st1 n (Takes-Grows st st1 b t) free, used);
    inode = λ n (free, used). update-other (st2.image.inode) b dinode n (λ e.
        let clash : true ≡ false = sym (Takes-at st st1 b t) ∙ ap (st1.freemap) e ∙ free in
        absurd (ground arith));
    bytes = λ n (free, used). update-other (st2.image.bytes) b _ n (λ e.
        let clash : true ≡ false = sym (Takes-at st st1 b t) ∙ ap (st1.freemap) e ∙ free in
        absurd (ground arith));
  }

  -- A directory whose entries have been added is stored when its inode is written.
  pub closed-At :
      (inner : Folder)
      → Grows st1 st2
      → dinode.kind ≡ type_dir
      → dinode.blocks ≡ 2 + count_items inner
      → (dinode.direct 0).filename ≡ dot
      → (dinode.direct 1).filename ≡ dot_dot
      → Stored (st1.freemap) st2 (dinode.direct) 2 inner
      → At (st.freemap) closed b (folder inner)
  closed-At inner g kind blocks first second stored =
      let used =
        ap (λ (f : ℕ → Bool). f b) (copy_inode-same b dinode st2).0
        ∙ g.taken b (Takes-at st st1 b t) in
      rw (inode-at b dinode st2) (
        (t.was_free, used),
        (
          kind,
          blocks,
          first,
          second,
          Stored-carried (st1.freemap) st2 (st.freemap) closed closed-Carries inner (dinode.direct)
              2 stored,
        ),
      )

  pub closed-Grows : Grows st1 st2 → Grows st closed
  closed-Grows g =
      copy_inode-Grows b dinode st st2 (Takes-other st st1 b t)
        (Grows-trans st st1 st2 (Takes-Grows st st1 b t) g)

abbrev NamedFirst : Builder → Entry → List ℕ → Folder → ℕ → Builder → (ℕ → InodeItem) → Type 0
NamedFirst st e name rest index st'' items =
    ((items index).filename ≡ name)
    × At (st.freemap) st'' ((items index).block) e
    × Stored (st.freemap) st'' items (index + 1) rest

-- An entry that is skipped, or the item of an entry that is stored and the rest of the loop.
abbrev OneFilled :
    Bool → Builder → ℕ → Entry → List ℕ → Folder → ℕ → Inode → Inode × ℕ × Builder → Type 0
OneFilled skipped st n e name rest index inode (inode', index', st') =
    Filled st ((if skipped then 0 else n) + need rest)
      ((if skipped then 0 else 1) + count_items rest)
      (λ st'' items.
        if skipped
        then Stored (st.freemap) st'' items index rest
        else NamedFirst st e name rest index st'' items)
      index inode inode' index' st'

skip-Filled :
    (st : Builder) (n : ℕ) (e : Entry) (name : List ℕ) (rest : Folder) (index : ℕ) (inode : Inode)
    (r : Inode × ℕ × Builder)
    → Fills st rest index inode r
    → OneFilled true st n e name rest index inode r
skip-Filled st n e name rest index inode (inode', index', st') r = record {
  grows = r.grows;
  counted = r.counted;
  left = let left = r.left in omega arith;
  items = let items = r.items in omega arith;
  before = r.before;
  kind = r.kind;
  stored = r.stored;
}

put-Filled :
    (st st1 : Builder) (n : ℕ) (e : Entry) (name : List ℕ) (b : ℕ) (rest : Folder) (index : ℕ)
    (inode : Inode) (next : Inode → Builder → Run (Inode × ℕ × Builder))
    → Grows st st1
    → At (st.freemap) st1 b e
    → st1.freenum + n ≡ st.freenum
    → index < 12
    → ((inode1 : Inode) → Returns (Fills st1 rest (index + 1) inode1) (next inode1 st1))
    → Returns (OneFilled false st n e name rest index inode) (
        put_item inode index (record { filename = name; block = b }) st1 >>= λ (inode1, st2).
        next inode1 st2)
put-Filled st st1 n e name b rest index inode next g held left room later =
    rw (put_item-direct inode index (record { filename = name; block = b }) st1 room) (
      Returns-mono (later _) (λ (inode', index', st') r.
        item-Filled st st1 n e name b rest index inode inode' index' st' g held left r))

choose-Filled :
    (skipped : Bool) (st : Builder) (n : ℕ) (e : Entry) (name : List ℕ) (rest : Folder) (index : ℕ)
    (inode : Inode) (skip add : Run (Inode × ℕ × Builder))
    → index + ((if skipped then 0 else 1) + count_items rest) ≤ 12
    → (if skipped then 0 else n) + need rest ≤ st.freenum
    → (index + count_items rest ≤ 12
        → need rest ≤ st.freenum
        → Returns (Fills st rest index inode) skip)
    → (index + 1 + count_items rest ≤ 12
        → n + need rest ≤ st.freenum
        → Returns (OneFilled false st n e name rest index inode) add)
    → Returns (OneFilled skipped st n e name rest index inode) (if skipped then skip else add)
choose-Filled true st n e name rest index inode skip add room free h h' =
    Returns-mono (h (omega arith) (omega arith))
      (λ r filled. skip-Filled st n e name rest index inode r filled)
choose-Filled false st n e name rest index inode skip add room free h h' = h' (omega arith) free

module _ (junk : ℕ → Inode) where
  -- For small entries, and enough free blocks and direct items: the loop of `walk` returns, and
  -- the entries are stored in blocks that were free.
  pub add_entries-Fills :
      (dir_name : List ℕ) (f : Folder) (inode : Inode) (number index : ℕ) (st : Builder)
      → AreSmall f
      → index + count_items f ≤ 12
      → IsCounted st
      → need f ≤ st.freenum
      → Returns (Fills st f index inode) (add_entries junk dir_name f inode number index st)
  unfolding add_entries name_item
  add_entries-Fills dir_name nothing inode number index st small room c free =
      returns (nothing-Filled st index inode c)
  add_entries-Fills dir_name (other name rest) inode number index st small room c free =
      add_entries-Fills dir_name rest inode number index st small room c free
  add_entries-Fills dir_name (reg name size content rest) inode number index st
        (short, low, high, small) room c free =
      let named : ltb (length name) 28 ≡ true = ground arith in
      choose-Filled (is_dots name) st (1 + (size + 4095) / block_size) (file size content) name rest
        index inode _ _ room free
        (λ room' free'. add_entries-Fills dir_name rest inode number index st small room' c free')
        (λ room' free'.
          Returns-bind (add_file-FileAdded junk name size content st short low high c (omega arith))
            (λ (b, st1) t.
              let left = t.left in
              rw named (
                put-Filled st st1 (1 + (size + 4095) / block_size) (file size content) name b rest
                  index inode
                  (λ inode1 st2. add_entries junk dir_name rest inode1 number (index + 1) st2)
                  (t.grows) (t.file) left (omega arith)
                  (λ inode1.
                    add_entries-Fills dir_name rest inode1 number (index + 1) st1 small room'
                      (t.counted) (omega arith)))))
  add_entries-Fills dir_name (dir name inner rest) inode number index st (short, few, inside, small)
        room c free =
      let named : ltb (length name) 28 ≡ true = ground arith in
      let path = dir_name ++ slash ∷ name in
      choose-Filled (is_dots name) st (1 + need inner) (folder inner) name rest index inode _ _ room
        free
        (λ room' free'. add_entries-Fills dir_name rest inode number index st small room' c free')
        (λ room' free'. Returns-bind (get_free_block-Takes st c (omega arith)) (λ (b, st1) t.
          let left1 = t.left in
          Returns-bind
            (add_entries-Fills path inner (fresh_dir junk (st1.layout) path name number b) b 2 st1
              inside (omega arith) (t.counted) (omega arith))
            (λ (dinode', empty_index, st2) r.
              let left2 = r.left in
              let dinode = record dinode' { blocks = empty_index } in
              let st3 = copy_inode_to_block b dinode st2 in
              let (kind, first, second) =
                fresh_dir-dots junk (st1.layout) path name number b short in
              let held =
                closed-At st st1 st2 b dinode t inner (r.grows) (r.kind ∙ kind) (r.items)
                  (ap (λ (i : InodeItem). i.filename) (r.before 0 (omega arith)) ∙ first)
                  (ap (λ (i : InodeItem). i.filename) (r.before 1 (omega arith)) ∙ second)
                  (r.stored) in
              let left3 : st3.freenum + (1 + need inner) ≡ st.freenum =
                rw (copy_inode-same b dinode st2).1 (omega arith) in
              rw named (
                put-Filled st st3 (1 + need inner) (folder inner) name b rest index inode
                  (λ inode1 st4. add_entries junk dir_name rest inode1 number (index + 1) st4)
                  (closed-Grows st st1 st2 b dinode t (r.grows)) held left3 (omega arith)
                  (λ inode1.
                    add_entries-Fills dir_name rest inode1 number (index + 1) st3 small room'
                      (copy_inode-IsCounted b dinode st2 (r.counted)) (omega arith))))))
