-- ===== src/Pinning.antt =====
-- src/services/database.ts, the media pin queue: `enqueueImageCidsForPinning`, the task that it
-- hands to the queue, and the part of `stop` that clears the queue. `pinImageCid` ends in success
-- or failure as the IPFS node decides: an event of the model.
mod Tests
pub mod Laws
use orbitdb_relay.Prelude.{
  ℕ, Text, text_eq, Bool, true, false, Option, none, some, List, [], ◌∷◌, ◌++◌, map, ◌||◌,
  if◌then◌else◌, not,
}
use orbitdb_relay.Prelude.TextSet
use orbitdb_relay.Prelude.TextSet.{TextSet}
use orbitdb_relay.Media.{ExtractedMediaCid}
use orbitdb_relay.Service.{Service, Tasks, PinTask}

unfoldable pub enqueue_one : Text → ExtractedMediaCid → Service → Service
enqueue_one db_address (image_cid, sources) service =
    if TextSet.has image_cid service.pinned_image_cids
      || TextSet.has image_cid service.queued_image_cids
    then service
    else record service {
      queued_image_cids = TextSet.add image_cid service.queued_image_cids;
      pin_queue = record (service.pin_queue) {
        waiting =
            service.pin_queue.waiting
            ++ record { cid = image_cid; db_address = db_address; sources = sources } ∷ [];
      };
    }

unfoldable pub enqueue_all : Text → List ExtractedMediaCid → Service → Service
enqueue_all db_address [] service = service
enqueue_all db_address (e ∷ es) service =
    enqueue_all db_address es (enqueue_one db_address e service)

-- `has_pins` is `this.ipfs?.pins`. The test of `entries.length === 0` only saves the loop.
unfoldable pub enqueue_image_cids_for_pinning :
    Bool → List ExtractedMediaCid → Text → Service → Service
enqueue_image_cids_for_pinning has_pins entries db_address service =
    if not has_pins || service.is_shutting_down
    then service
    else enqueue_all db_address entries service

-- The first task for a CID, and the others.
unfoldable pub take_task : Text → List PinTask → Option (PinTask × List PinTask)
take_task c [] = none
take_task c (t ∷ ts) =
    if text_eq t.cid c
    then some (t, ts)
    else elim (take_task c ts) [ none ↦ none | some (found, rest) ↦ some (found, t ∷ rest) ]

-- The queue starts a waiting task.
unfoldable pub start_pin : Text → Service → Service
start_pin c service = elim (take_task c service.pin_queue.waiting) [
  | none ↦ service
  | some (task, rest) ↦ record service {
    pin_queue = record { waiting = rest; running = task ∷ service.pin_queue.running };
  }
]

-- A running task settles: on success the CID is pinned; in either case it is no longer queued.
unfoldable pub settle_pin : Bool → Text → Service → Service
settle_pin pinned c service = elim (take_task c service.pin_queue.running) [
  | none ↦ service
  | some (task, rest) ↦ record service {
    pin_queue = record (service.pin_queue) { running = rest };
    pinned_image_cids =
        if pinned
        then TextSet.add task.cid service.pinned_image_cids
        else service.pinned_image_cids;
    queued_image_cids = TextSet.delete task.cid service.queued_image_cids;
  }
]

-- `beginShutdown`, and `pinQueue.clear()` of `stop`: what waits is dropped, and the dropped tasks
-- never reach their `finally`.
unfoldable pub begin_shutdown : Service → Service
begin_shutdown service = record service { is_shutting_down = true }

unfoldable pub clear_pins : Service → Service
unfolding begin_shutdown
clear_pins service = record (begin_shutdown service) {
  pin_queue = record (service.pin_queue) { waiting = [] };
}

pub data PinEvent : Type 0 where
  discovers : List ExtractedMediaCid → Text → PinEvent
  starts pins fails : Text → PinEvent
  begins_shutdown stops : PinEvent

unfoldable pub pin_step : Bool → PinEvent → Service → Service
pin_step has_pins (discovers entries db_address) service =
    enqueue_image_cids_for_pinning has_pins entries db_address service
pin_step has_pins (starts c) service = start_pin c service
pin_step has_pins (pins c) service = settle_pin true c service
pin_step has_pins (fails c) service = settle_pin false c service
pin_step has_pins begins_shutdown service = begin_shutdown service
pin_step has_pins stops service = clear_pins service

unfoldable pub pin_run : Bool → List PinEvent → Service → Service
pin_run has_pins [] service = service
pin_run has_pins (e ∷ es) service = pin_run has_pins es (pin_step has_pins e service)
