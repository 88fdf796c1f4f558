-- ===== src/Lib.antt =====
-- The firmware of a small watch (ESP-IDF, C): its data paths, modelled and proved.
--
-- The firmware is a set of components under components/. Those modelled here, with their files:
--
--   Ring      components/common/src/ring_buffer.c, a bounded FIFO of fixed-size elements behind a
--             mutex. Ring.Queue is what it promises, a bounded list; Ring.Valid the representation
--             invariant; Ring.Refine and Ring.Run the refinement of calls and of histories of calls.
--   Ble       components/ble_manager. Ble.Message holds the message type of private/ble_types.h;
--             Ble.Fifo the two queues of src/ble_fifo.c, which are rings; Ble.Tx and Ble.Rx the two
--             directions of src/ble_packet_handler.c, `ble_build_next_packet` and
--             `ble_retrieve_packet`; Ble.Link the two ends together: what one sends the other takes;
--             Ble.Multichunk the messages in chunks of src/ble_multichunk_handler.c; Ble.Requests and
--             Ble.Responses the messages of src/ble_request_handler.c and src/ble_response_handler.c;
--             Ble.Manager the connection and the hooks of src/ble_manager.c, which run all of these.
--   Notifications  components/notification_manager/src/notification_manager.c: what is kept of them.
--   Events    components/event_manager/src/event_manager.c: subscriptions and their delivery.
--   Phone     the two together: a notification from its bytes to the ones that are kept.
--   Alarms    components/state_manager/src/alarm_manager.c: the table of alarms and its timer. What a
--             call gets from outside (the time, whether the lock and the timer could be had) is `Env`.
--   State     components/state_manager/src/state_manager.c: the time, the weather and the steps.
--             State.Requests is about when it asks for the time, State.Sync about what it does with it.
--   Steps     components/motion_stage1_engine/src/step_detection_algo.c, only the counting of the steps
--             that were seen, `stage1_derive_accepted_steps_from_window`.
--   Navigation  components/ui_base/src/navigation.c: where the focus moves in the tree of widgets.
--   Wakelock  components/wakelock_manager/src/wakelock_manager.c, one step for each atomic access.
--   Runtime   components/runtime_manager: the worker that runs what other tasks ask for and decides
--             when the watch sleeps. Runtime holds the state, Runtime.Platform the operating system
--             as a parameter, Runtime.Workers the worker's loop in atomic steps, Runtime.Window the
--             grace window before sleep, Runtime.Calls and Runtime.Tasks the calls of the other
--             tasks, Runtime.Init the start and the end; the others hold proofs: of the invariant
--             (Valid, Keeps, Count), of rest (Drain, Settle, Returns), of sleep (Sleep, Curfew), of
--             the hooks (Hooks) and of the histories of a started manager (Run, Start, Schedule).
--   Ticks     components/tick_manager/src/tick_manager.c: the wake-ups and what is due at each.
--   Power     components/power_manager/src/power_manager.c: the power states, which it tells to
--             Runtime, and the count of wake-ups, which it takes from Ticks.
--
-- Ble.Fifo uses Ring for its two queues, Ble.Tx and Ble.Rx take messages from and put them into
-- Ble.Fifo, Ble.Multichunk and Ble.Responses read the messages that were received, and Ble.Requests
-- puts messages into Ble.Fifo. Notifications, State, Power and Runtime subscribe with Events, and
-- State starts Alarms and tells it of a new time. Common has the types of components/common/include/common_types.h
-- that they exchange. Power uses Ticks and Runtime, and Runtime and Common use the integers of
-- Wakelock. The others do not depend on each other.
--
-- Base holds what they share: Boolean tests on numbers and unsigned words, lists with lengths over
-- the native numbers, C arrays as functions from the index, chains of options, and the binary or.
--
-- Each operation is a function from the state to the state and its result, with the source's name
-- less the component's prefix (`ringbuf_push` is `Ring.push`, `add_ble_msg_to_queue` is
-- `Ble.Fifo.add_msg`). An argument that may be a null pointer is an option or a Boolean. Words
-- keep their wrap-around. `none` is a failed assertion, or a loop whose fuel ran out: `build_loop`
-- has fuel for `effective_mtu` + 1 rounds, as each round appends a byte, and `parse_loop` for
-- twice the packet's length and two, as a round drops a byte or leaves the state that it is in for
-- the next; `crc_loop` has fuel for the message's length and one, as a round moves on by a byte,
-- `publish_loop` for one round more than an event can have handlers, and `drain_loop` for one
-- round more than its queue holds; those of Ble.Manager have fuel for what a queue can hold. That this
-- is enough is part of the theorems that say that the functions return.
--
-- In Ble.Multichunk, Ble.Responses, Ble.Manager (`tx_buffer`) and Notifications memory is checked:
-- `none` is also an access outside a block or an array. `malloc`, `esp_rom_crc32_le` and the handlers of
-- events are arguments.
--
-- Mutexes are whether they exist (in Alarms, also whether one was taken in time). A call on a ring
-- or on the alarms is one atomic step, as it holds its mutex while it works
-- (`alarm_manager_edit_alarm` is one step for each time that it takes it); the contexts of the
-- packet code, the chunk parser and the event table have no lock, and are taken as used by one
-- call at a time. In Runtime a round of the worker is eight steps, between which other tasks run.
--
-- FreeRTOS and ESP-IDF are not modelled: Runtime has their queues and timers as the parameters `Os`
-- and `Timers`, with what their manuals say of them as laws. A timer that fires and its callback
-- are one step, and whether a callback gets a lock is an argument. The Bluetooth stack, NimBLE, is the
-- parameter `Host` of Ble.Manager, whose calls answer in a world that stands for all else.
-- The tree of widgets is an argument of Navigation. The rest of the user interface (LVGL), the drivers
-- and the applications are left out, as they are calls of libraries and access to hardware.
pub mod Alarms
pub mod Base
pub mod Ble
pub mod Common
pub mod Events
pub mod Navigation
pub mod Notifications
pub mod Phone
pub mod Power
pub mod Ring
pub mod Runtime
pub mod State
pub mod Steps
pub mod Ticks
pub mod Wakelock
