-- ===== src/SyncType.antt =====
-- `SyncType` of src/sync.rs: what a blocked thread waits for, and its wait-event tag.
pub mod Codec
use rtsched.Base.{ℕ, ◌+◌, ◌*◌, Option, none, some, Ordering, compare, ◌==◌, if◌then◌else◌}

pub data SyncType : Type 0 where
  binary_semaphore counting_semaphore mutex message_queue_send message_queue_receive : SyncType

-- `u32::from_be_bytes`
abbrev pub from_be_bytes : ℕ → ℕ → ℕ → ℕ → ℕ
from_be_bytes a b c d = ((a * 256 + b) * 256 + c) * 256 + d

unfoldable pub wait_event : SyncType → ℕ
wait_event binary_semaphore = from_be_bytes b's' b'e' b'm' b'b'
wait_event counting_semaphore = from_be_bytes b's' b'e' b'm' b'c'
wait_event mutex = from_be_bytes b'm' b'u' b't' b'e'
wait_event message_queue_send = from_be_bytes b'm' b'q' b't' b'x'
wait_event message_queue_receive = from_be_bytes b'm' b'q' b'r' b'x'

unfoldable pub from_wait_event : ℕ → Option SyncType
unfolding wait_event
from_wait_event e =
    if e == wait_event binary_semaphore
    then some binary_semaphore
    else if e == wait_event counting_semaphore
    then some counting_semaphore
    else if e == wait_event mutex
    then some mutex
    else if e == wait_event message_queue_send
    then some message_queue_send
    else if e == wait_event message_queue_receive
    then some message_queue_receive
    else none

-- `Ord for SyncType`
unfoldable pub cmp_sync : SyncType → SyncType → Ordering
cmp_sync a b = compare (wait_event a) (wait_event b)

-- `Ord for Option<SyncType>`: `None` comes first.
unfoldable pub cmp_waitevt : Option SyncType → Option SyncType → Ordering
unfolding cmp_sync
cmp_waitevt none none = Ordering.eq
cmp_waitevt none (some b) = Ordering.lt
cmp_waitevt (some a) none = Ordering.gt
cmp_waitevt (some a) (some b) = cmp_sync a b
