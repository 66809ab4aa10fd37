-- ===== src/Lib.antt =====
-- The cache queues between a PLC, cameras and two robot arms: the Python service under
-- 队列管理/src.
--
-- A PLC announces a work piece with a count and a pulse pointer. Cameras send the points of the
-- piece for each arm. When the piece reaches an arm, the PLC sends that arm's pointer; the arm then
-- asks for its points, and reports the completion.
--
-- Files and the code that they are about:
--   Queue           core/queue_manager.py, class EnhancedQueueManager. Queue/State has the data,
--                   Queue/History the history ring, the arm statuses and the messages,
--                   Queue/Defaults the default payloads and fills, Queue/Enqueue enqueue_item and
--                   handle_plc_command, Queue/Camera store_camera_data and ingest_camera_data,
--                   Queue/Dequeue handle_dequeue_pointers and _process_arm_dequeue, Queue/Arm
--                   handle_arm_data_request and handle_arm_completion, Queue/Calls the constructor
--                   and sequences of calls. The other files of Queue have proofs.
--   Workflow        core/enqueue_workflow.py, class EnqueueWorkflowCoordinator, on top of the queue
--                   manager: Workflow/State, Commands (11 and 12), Camera2d, Camera3d, Events.
--                   Workflow/Frames cuts the frames out of the receive buffers
--                   (on_camera_payload, _pop_2d_frame_locked, _drain_3d_frames); Draining, Brackets,
--                   Fragments, Arrival, Lines, Partial and Emptied have proofs on that.
--   Arms            core/arm_controller.py, class SimpleArmController: Arms/Link the link to one arm
--                   (ArmInfo with its threads), Arms/Controller the arms together, Arms/Commands
--                   _extract_commands, Arms/Reach the steps of a link. The others have proofs.
--   Cameras         core/camera_server.py, class DualCameraServer: Cameras/Server; Heartbeat,
--                   Connection and Started have proofs.
--   System          main.py: System/Commands how arm_command_callback reads a command,
--                   System/Callbacks the callbacks of setup_module_callbacks in the mode with one
--                   camera, on the queue manager, the PLC handler, the camera server and the arms;
--                   System/Events puts what the devices do in any order. The others have proofs.
--   Parser          utils/data_parser.py: the binary messages of the PLC and the arms.
--   Plc             core/plc_handler.py, class DualPortPLCHandler: Plc/Stream (_recv_exact on a TCP
--                   stream), Plc/Pointers, Plc/Sending (feedback to the connections),
--                   Plc/Connections (the loops over a connection) and Plc/Servers (start, accept,
--                   stop, get_status). Reading, Frames and Served have proofs.
--   Prelude, Dict, Text   shared: tests on numbers, lists, Python's dict with integer keys, and
--                   byte strings with int(), strip() and split().
--   Tests           the program run on small inputs.
--
-- How the code is modelled:
--   An object is a record and a method is a function from the state before to the state after,
--   with the result beside it. A method runs as a whole: threads are sequences of calls, and what
--   another thread does between two locked sections of one method is not modelled. An ArmQueueItem
--   is shared by a queue and a cache: items live on a heap, and the dictionaries hold references.
--   Callbacks and messages are recorded as effects in order; what an outside device answers (a
--   send that succeeds) is an argument. All calls of time.time() in one method give the same time,
--   which is an argument. A ValueError is a value of Outcome.
--   Numbers are natural numbers; int() of a text gives an integer, and a negative count is no key
--   of the dictionaries. The 16-bit wrap of the count is written out.
--   Fuel: decimal digits have n + 1 for a number n, which has no more digits than that; the loop
--   of _recv_exact has the size, of which each turn reads a byte or more; the loop over a PLC
--   connection has the length of the stream plus one, of which each turn reads a frame; the scan
--   for arm commands has the length of the text, of which each turn takes a character or more; and
--   the loops that drain the receive buffers have the length of the buffer plus one, of which each
--   frame takes a byte or more.
--   A socket is a number. A thread is kept as whether it runs, and for a camera as the socket that
--   it reads. A loop that accepts or receives is modelled by its round; Reach (of an arm) and
--   run_channel (of a camera) put rounds, sends and reconnections in any order.
--   Regular expressions are written out as functions on the text.
--   Texts are lists of code points, and decoding is the identity, which is exact on ASCII: bytes
--   that are not ASCII, which decoding drops or joins to other characters, are outside of the model
--   of the line protocols, and so is a loop over frames that the encoding of a type which is not
--   ASCII ends early. The frames of the 3D camera are cut as latin-1, where the model is exact on all
--   bytes. The float32 codec of struct is a parameter of Parser/Arm: encoding may raise, and decoding
--   gives the nearest float32.
--   A socket that `connect` or `bind` refuses is a local variable that is dropped; what the
--   interpreter does with it later is not modelled.
--   In System/Events each event has its own time and its own sockets that take data or fail.
--   A row of the history keeps the kind of event, the numbers and the payload in place of the
--   rendered text. TimeoutMode has the two modes of the configuration.
--
-- Not modelled: the calls of sockets and threads themselves, logging, the HMI snapshot, the texts for
-- display and the web server, the settings file, the callbacks of main.py in the mode with two
-- cameras with the results of their sends, and the wrapping of camera data with a count, which
-- nothing calls.
pub mod Arms
pub mod Cameras
pub mod System
pub mod Prelude
pub mod Dict
pub mod Text
pub mod Queue
pub mod Parser
pub mod Workflow
pub mod Tests
pub mod Plc
