-- ===== src/SyncType/Codec.antt =====
-- The wait-event tags of src/sync.rs decode to the type that they encode.
use rtsched.Base.{ℕ, ◌≡◌, refl, ◌<◌, ◌^◌, some, arith}
use rtsched.SyncType.{
  SyncType, binary_semaphore, counting_semaphore, mutex, message_queue_send, message_queue_receive,
  wait_event, from_wait_event,
}

-- Decoding the tag of a type gives that type back, and the tag is a 32-bit word.
pub from_wait_event-wait_event :
    (t : SyncType) → (from_wait_event (wait_event t) ≡ some t) × (wait_event t < 2 ^ 32)
unfolding from_wait_event wait_event
from_wait_event-wait_event binary_semaphore = (refl, omega arith)
from_wait_event-wait_event counting_semaphore = (refl, omega arith)
from_wait_event-wait_event mutex = (refl, omega arith)
from_wait_event-wait_event message_queue_send = (refl, omega arith)
from_wait_event-wait_event message_queue_receive = (refl, omega arith)

-- A word that decodes to a type is the tag of that type: no other word does.
pub wait_event-from_wait_event :
    (e : ℕ) (t : SyncType) → from_wait_event e ≡ some t → wait_event t ≡ e
unfolding from_wait_event wait_event
wait_event-from_wait_event e t h = ground arith
