-- ===== src/Examples/Stream.antt =====
-- The receiving loop at short reads.
use pyconnect.Examples.{hello}
use pyconnect.NetComm.Frame.{dispatch_frame, dispatch_frame_iff, frame}
use pyconnect.NetComm.Stream.{DataInfo, finished, receive_all}
use pyconnect.NetComm.StreamSafety.{Finishes, IsValid, receive_all-Finishes}
use pyconnect.NetComm.Caching.{Holds, header}
use pyconnect.NetComm.Loss.{receive_all_loses_header, receive_all_loses_last}
use pyconnect.Base.{
  Bytes, [], ap, arith, length, refl, some, suc, zero, ℕ, ◌++◌, ◌↔◌, ◌∷◌, ◌≡◌, ◌≤◌,
}
use pyconnect.Common.Types.{codes, msg_buffer_size}
use pyconnect.NetComm.Delivery.{Cut, Cuts, receive_all-Cuts}

pub zeros : ℕ → Bytes
zeros zero = []
zeros (suc n) = 0 ∷ zeros n

pub length-zeros : (n : ℕ) → length (zeros n) ≡ n
unfolding zeros
length-zeros zero = refl
length-zeros (suc n) = ap suc (length-zeros n)

abbrev pub fresh_info : DataInfo
fresh_info = record {
  buffered_data = zeros msg_buffer_size;
  expected_data_length = 0;
  buffered_data_length = 0;
}

pub fresh_info-IsValid : IsValid fresh_info
fresh_info-IsValid = record { allocated = length-zeros msg_buffer_size; fits = omega arith }

pub fresh_info-Holds : Holds fresh_info [] []
fresh_info-Holds = record {
  allocated = length-zeros msg_buffer_size;
  fits = omega arith;
  cached = refl;
  cached_length = refl;
  expected = refl;
}

first-Cut :
    Cut [] [] (frame hello ++ (header hello ++ codes "hel")) (hello ∷ []) (codes "hel") (codes "lo")
unfolding frame
first-Cut = Cut.whole hello (omega arith) refl (
    Cut.begin {part = codes "hel"} {missing = codes "lo"} (omega arith) (omega arith) (omega arith)
      refl)

second-Cut : Cut (codes "hel") (codes "lo") (codes "lo@") (hello ∷ []) [] []
second-Cut = Cut.end (omega arith) refl refl Cut.nothing

-- A whole message and the header and three bytes of another, and then the rest of it.
hello-Cuts :
    Cuts [] []
      ((frame hello ++ (header hello ++ codes "hel")) ∷ (codes "lo@") ∷ [])
      (hello ∷ hello ∷ [])
      []
      []
unfolding frame
hello-Cuts =
    Cuts.read (omega arith) first-Cut (Cuts.read (omega arith) second-Cut Cuts.no_more refl) refl

receive_all-Cuts_example :
    (info : DataInfo) × (receive_all fresh_info
        ((frame hello ++ (header hello ++ codes "hel")) ∷ (codes "lo@") ∷ [])
      ≡ finished info (hello ∷ hello ∷ []))
    × Holds info [] []
receive_all-Cuts_example =
    receive_all-Cuts fresh_info [] []
      ((frame hello ++ (header hello ++ codes "hel")) ∷ (codes "lo@") ∷ []) (hello ∷ hello ∷ []) []
      [] fresh_info-Holds hello-Cuts

receive_all-Finishes_example : Finishes (receive_all fresh_info (codes "#@" ∷ codes "ab" ∷ []))
receive_all-Finishes_example =
    receive_all-Finishes (codes "#@" ∷ codes "ab" ∷ []) fresh_info fresh_info-IsValid
      (omega arith, (omega arith, tt))

receive_all_loses_last_example :
    (info : DataInfo) × (receive_all fresh_info ((header hello ++ hello) ∷ codes "@" ∷ [])
      ≡ finished info [])
    × Holds info [] []
receive_all_loses_last_example =
    receive_all_loses_last fresh_info hello fresh_info-Holds (omega arith) (omega arith)

receive_all_loses_header_example :
    (info : DataInfo) × (receive_all fresh_info
        ((b'#' ∷ 5 ∷ 0 ∷ []) ∷ (b'h' ∷ (codes "ello" ++ codes "@")) ∷ [])
      ≡ finished info [])
    × Holds info [] []
receive_all_loses_header_example =
    receive_all_loses_header fresh_info 5 0 b'h' (codes "ello") fresh_info-Holds (λ e. ground arith)

dispatch_frame_iff_example : (dispatch_frame hello ≡ some (frame hello)) ↔ (length hello ≤ 10236)
dispatch_frame_iff_example = dispatch_frame_iff hello
