-- ===== src/Rempi/Encoder/Writing/Chunks.antt =====
-- The chunks of a record and the front of the event list (src/rempi/rempi_io_thread.cpp,
-- src/rempi/rempi_event_list.cpp).
use re_omp_llvm.Common.{
  ℕ, ◌≡◌, refl, sym, ap, ◌∙◌, true, Option, none, some, List, [], ◌∷◌, ◌++◌, append_assoc,
  append-nil, length, ◌==◌, arith,
}
use re_omp_llvm.Rempi.Event.{Event}
use re_omp_llvm.Rempi.EventList.{EventList, front}
use re_omp_llvm.Rempi.Encoder.{encode, write_record_file, write_chunks}

abbrev pub concat {ℓ} : {A : Type ℓ} → List (List A) → List A
concat [] = []
concat (xs ∷ xss) = xs ++ concat xss

pub concat-append {ℓ} :
    {A : Type ℓ} (xss : List (List A)) (ys : List A) → concat (xss ++ ys ∷ []) ≡ concat xss ++ ys
concat-append [] ys = append-nil ys
concat-append (xs ∷ xss) ys =
    ap (λ l. xs ++ l) (concat-append xss ys) ∙ sym (append_assoc xs (concat xss) ys)

pub write_chunks-append :
    (file : List ℕ) (xss : List (List Event)) (ys : List Event)
    → write_chunks file (xss ++ ys ∷ []) ≡ write_record_file (write_chunks file xss) (encode ys)
unfolding write_chunks
write_chunks-append file [] ys = refl
write_chunks-append file (xs ∷ xss) ys =
    write_chunks-append (write_record_file file (encode xs)) xss ys

pub length_zero {ℓ} : {A : Type ℓ} (xs : List A) → (length xs == 0) ≡ true → xs ≡ []
length_zero [] h = refl
length_zero (x ∷ xs) h = absurd (ground (arith, h))

abbrev pub front_of : List Event → Option Event
front_of [] = none
front_of (e ∷ es) = some e

pub front_eq : (s : EventList) → front s ≡ front_of s.events
unfolding front
front_eq s = by_events s.events refl
  where
    by_events : (es : List Event) → s.events ≡ es → front s ≡ front_of s.events
    by_events [] h = ground (arith, h)
    by_events (e ∷ es) h = ground (arith, h)
