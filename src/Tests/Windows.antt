-- ===== src/Tests/Windows.antt =====
-- The sliding window: the run of the source's own test, and the theorems at its windows.
use bluefin.Prelude.{◌≡◌, refl, arith, [], ◌∷◌}
use bluefin.Prelude.{ok, err, none, some, unexpected_packet_number_error}
use bluefin.Window
use bluefin.Window.{
  SlidingWindow, ConsumeResult, insert_packet_number, insert_each, insert_range, numbers, consume,
  max_sliding_window_size,
}
use bluefin.Window.Insert.{IsValid, insert_expected, insert_packet_number_lem}
use bluefin.Window.Range.{insert_range-insert_each}

abbrev window : SlidingWindow
window = record {
  smallest_expected_packet_number = 100;
  ordered_packet_numbers = 101 ∷ 102 ∷ 103 ∷ 104 ∷ 106 ∷ [];
}

abbrev filled : SlidingWindow
filled = record {
  smallest_expected_packet_number = 100;
  ordered_packet_numbers = 100 ∷ 101 ∷ 102 ∷ 103 ∷ 104 ∷ 106 ∷ [];
}

window-IsValid : IsValid window
window-IsValid = omega arith

insert_behind :
    insert_packet_number window 105
    ≡ (record window { ordered_packet_numbers = 101 ∷ 102 ∷ 103 ∷ 104 ∷ 105 ∷ 106 ∷ [] }, ok tt)
unfolding insert_packet_number Window.back Window.insert_by_search Window.search_from
    Window.insert_at Window.push_back
insert_behind = refl

insert_twice : insert_packet_number window 103 ≡ (window, err unexpected_packet_number_error)
unfolding insert_packet_number Window.back Window.insert_by_search Window.search_from
    Window.insert_at Window.push_back
insert_twice = refl

consume-filled : consume filled ≡ (
  record { smallest_expected_packet_number = 105; ordered_packet_numbers = 106 ∷ [] },
  some (record { largest_packet_number = 104; num_acks_consumed = 5 }),
)
unfolding consume Window.consume_loop
consume-filled = refl

consume_missing : consume window ≡ (window, none)
unfolding consume
consume_missing = refl

insert_packet_number_lem_example : insert_packet_number window 105 ≡ insert_expected window 105
insert_packet_number_lem_example = insert_packet_number_lem window 105 window-IsValid (omega arith)

insert_range-insert_each_example : insert_range window 103 5 ≡ insert_each window (numbers 103 5)
insert_range-insert_each_example =
    insert_range-insert_each window 103 5 window-IsValid (omega arith)
