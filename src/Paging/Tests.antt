-- ===== src/Paging/Tests.antt =====
-- Page numbers, entries and pages at concrete values.
use moonix.Base.{ℕ, ◌+◌, ◌≤◌, ◌<◌, ◌≡◌, refl, arith, ok, ◌⊎◌, inl, ltb, if◌then◌else◌}
use moonix.Frames.{page_size, Frames}
use moonix.Paging.{get_vpn_levels, find_entry, load, store}
use moonix.Paging.Copy.{fill_page-lem}
use moonix.Paging.Entries.{entry_word, find_entry-walks}
use moonix.Paging.Segments.{fill_page}

levels : get_vpn_levels 0x80201 ≡ (2, 1, 1)
unfolding get_vpn_levels
levels = refl

-- Tables in the pages 1, 2 and 3: the page 2 * 2 ^ 18 + 1 * 2 ^ 9 + 1 has an entry.
abbrev tables : Frames
tables = record {
  sta = record { node = λ i. 0; first_single = 1; length = 1; start_ppn = 0 };
  memory = store (store (λ a. 0) 4112 8 (entry_word 2 1)) 8200 8 (entry_word 3 15);
}

first_word : load (tables.memory) 4112 8 ≡ entry_word 2 1
unfolding load store
first_word = refl

second_word : load (tables.memory) 8200 8 ≡ entry_word 3 15
unfolding load store
second_word = refl

find_entry-walks_example : find_entry (record { root_ppn = 1 }) 0x80201 tables ≡ ok (12296, tables)
find_entry-walks_example =
    find_entry-walks (record { root_ppn = 1 }) 0x80201 2 1 3 15 tables (omega arith) (omega arith)
      (record { page = omega arith; some_flag = omega arith; ten_bits = omega arith })
      (record { page = omega arith; some_flag = omega arith; ten_bits = omega arith }) first_word
      second_word

abbrev sevens : ℕ → ℕ
sevens a = 7

fill_page-lem_example :
    ((i : ℕ)
      → i < page_size
      → fill_page sevens 8192 0 100 (8192 + i) ≡ (if ltb i 100 then sevens (0 + i) else 0))
    × ((a : ℕ) → (a < 8192) ⊎ (8192 + page_size ≤ a) → fill_page sevens 8192 0 100 a ≡ sevens a)
fill_page-lem_example = fill_page-lem sevens 8192 0 100 (inl (omega arith))
