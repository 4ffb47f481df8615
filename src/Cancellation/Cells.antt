-- ===== src/Cancellation/Cells.antt =====
-- What the operations on tokens leave alone: the counts of receivers and the cells in use.
use codelldb.Prelude.{
  suc, ◌<◌, ◌≡◌, ◌≢◌, inl, inr, refl, ap, ◌∙◌, List, [], ◌∷◌, ◌==◌, arith, Bool-cases,
}
use codelldb.Cancellation.{Heap, Sender, new, subscribe, send, receiver_count, drop}
use codelldb.Cancellation.Filter.{send_all}

-- The heap with a new token for a request.
abbrev pub opened : Heap → Heap
opened h = (subscribe (new h).0 (new h).1).1

pub opened-next : (h : Heap) → (opened h).next ≡ suc h.next
unfolding new subscribe
opened-next h = refl

pub opened-cells : (h : Heap) (s : Sender) → s < h.next → (opened h).cells s ≡ h.cells s
unfolding new subscribe
opened-cells h s lt = ground arith

send-next : (t : Sender) (h : Heap) → (send t h).next ≡ h.next
unfolding send
send-next t h = refl

pub send-count : (t s : Sender) (h : Heap) → receiver_count s (send t h) ≡ receiver_count s h
unfolding send receiver_count
send-count t s h = elim (Bool-cases (t == s)) [
  | inl same ↦ ground (arith, ap (λ i. (h.cells i).receiver_count) {x = t} {y = s})
  | inr differs ↦ ground arith
]

pub send_all-next : (ts : List Sender) (h : Heap) → (send_all ts h).next ≡ h.next
unfolding send_all
send_all-next [] h = refl
send_all-next (t ∷ ts) h = send_all-next ts (send t h) ∙ send-next t h

pub send_all-count :
    (ts : List Sender) (s : Sender) (h : Heap)
    → receiver_count s (send_all ts h) ≡ receiver_count s h
unfolding send_all
send_all-count [] s h = refl
send_all-count (t ∷ ts) s h = send_all-count ts s (send t h) ∙ send-count t s h

pub drop-count :
    (r s : Sender) (h : Heap) → r ≢ s → receiver_count s (drop r h) ≡ receiver_count s h
unfolding drop receiver_count
drop-count r s h ne = ground arith
