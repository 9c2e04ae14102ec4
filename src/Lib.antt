-- ===== src/Lib.antt =====
-- Verification of NuttX sample applications under apps/: the Modbus slave,
-- apps/mini_modbusslave/modbusslave_main.c, the CAN node, apps/mini_cannode, and the smaller examples:
-- the timers of apps/mini_components2, the counting threads of apps/mini_components3, the semaphore of
-- apps/mini_components4, the floating-point numbers of apps/mini_components5, and the blinking LEDs of apps/mini_blinky_posix and apps/mini_blinky_stm32.
--
-- The Modbus slave keeps one structure, `g_modbus`, behind a mutex: 18 input registers, 2 holding
-- registers. Three threads share it. The loop of `main` counts up a register; `thread_adc` triggers
-- the ADC, reads four counts, and stores readings and statistics; the Modbus thread calls eMBPoll,
-- from which FreeModBus calls the register callbacks.
--
-- The CAN node has an identifier and a CAN driver behind the three functions of cannode.h, of which
-- cannode_char.c (the character device) and cannode_sock.c (SocketCAN) are two implementations.
-- `main` sends heartbeats, `thread_rx` sets LEDs on request, `thread_button` reports buttons. The
-- threads share the environment, which nobody changes, and the driver.
--
-- The smaller examples are programs of their own. In components3 three threads count to 3 in one
-- variable while `main` waits, in five variants that a build chooses from. In components2 `main` reads
-- two timers; in components4 it waits for a semaphore that a thread or a timer posts; in components5
-- it calls mathematical functions and prints.
--
-- Prelude: the library names in use, Boolean tests, arrays as lists over native numbers, signed
--   integers with the division and shift of C, words, bit operators (Prelude/Bits), and the type
--   `Outcome` of what a C function does: return, wait for ever on a mutex, or undefined behaviour.
-- Modbus/State: the register structures and `g_modbus`; the packed structures as arrays of words.
--   The mutex is the flag `lock`; pthread_mutex_lock on a held mutex is `blocked`.
-- Modbus/Ready: the invariant around the mutex.
-- Modbus/Wire: the wire format, described on its own; what `htobe16` and `be16toh` do.
-- Modbus/Callbacks: eMBRegInputCB (`reg_input_cb`), eMBRegHoldingCB (`reg_holding_cb`), eMBRegCoilsCB
--   and eMBRegDiscreteCB; `input_locked` and `holding_locked` are the parts under the mutex.
-- Modbus/Adc: ADC_RAW_TO_MILIVOLT (Adc/Convert), adc_reset_stats, the sample loop (`store_from`),
--   thread_adc before its loop (`thread_adc_start`) and one round of it (`adc_round`).
-- Modbus/Device: device_initialize, modbus_initialize, `main` up to its loop and one round of it.
-- Modbus/Threads: the three threads as a step relation, one step for each lock, each
--   part under the mutex up to the unlock, and each channel of a sample, in any order; its modules are named for what they show. Modbus/Serial: the device that does one
--   whole operation after the other, the specification of the threads. Modbus/Account: what a master is
--   promised about the registers, kept from the events alone. Modbus/EndToEnd: a write, rounds
--   of the ADC thread and a read composed.
-- Modbus/Tests: tests, and the theorems at concrete inputs.
-- Cannode/Message: cannode.h, can_get_timestamp, heartbeat_msg, button_msg.
-- Cannode/Driver: what cannode.h promises, as a record that both drivers fill.
-- Cannode/Chardev, Cannode/Sock: can_init, can_read and can_send of cannode_char.c and cannode_sock.c;
--   `to_frame` and `of_frame` are their parts that convert. Cannode/Reads: both versions of can_read.
--   Cannode/Mixed: both drivers on one bus.
-- Cannode/Receive: thread_rx, led_init, led_set. Cannode/Button: thread_button, both versions,
--   button_init, button_get. Cannode/Main: main. Cannode/Network: nodes and a
--   master on one bus, as steps. Cannode/Tests: tests, theorems at concrete inputs.
-- Components2: timer_read and the rounds of `main` of components2_main.c with poll (Polled) and epoll
--   (Waits), and its loop with the timers alone in time (Clock).
-- Components3/Atomic: `thread` and `main` of components3_main.c with the atomic counter, as steps. It is
--   the specification of the variants with a mutex or a read-write lock (Guarded, over the interface
--   Guarded/Locks) and with a condition variable (Cond). Plain: the variant in which nobody counts.
-- Components4: `thread`, sigev_callback and `main` of components4_main.c, as steps.
-- Components5: the loop of components5_main.c, over its mathematical library (Domains) and its
--   fixed-point library (Fixed).
-- Hello: `main` of hello_main.c.
-- Blinky: `main` of blinky1_main.c and of blinky2_main.c.
--
-- Correspondence. An unsigned field is a number, with its range in the invariant `IsValid`; an
-- `int16_t` is an integer. Access out of bounds and signed overflow are `fault`. Loops count down
-- the rounds left, as `nregs` and `ADC_SAMPLES - i` do, so no fuel is needed; the endless loops
-- are given by their body and by the step relation. `htobe16` and `be16toh` belong to the C library
-- and are parameters; the theorems on values assume those of a little-endian host, as the boards
-- are, and that they read their argument once. What NuttX, the ADC driver and FreeModBus return,
-- and the requests that arrive, are arguments. The mutex is assumed not to be recursive and its
-- calls not to fail; right shift of a negative number and the conversion to `int16_t` are those of
-- GCC. PRINTF expands to nothing in this file and is left out.
--
-- In the CAN node the C array `data` is `payload`, and memory is little-endian. `can_bytes2dlc`,
-- `can_dlc2bytes` and CAN_MSGLEN are NuttX's and parameters, assumed to be the identity up to 8 bytes;
-- `stack` and `old` are what an array holds before it is written. The bus is a relation between the
-- frame written and the frame read, which keeps identifier, length and the bytes in use. Endless
-- loops take as many rounds as the system's results that they are given.
--
-- In components3 `g_val++` is a load and a store; every pthread_create is taken to succeed, and a wait
-- for the condition variable may end without a signal. Mutexes, the condition variable
-- and the timers do what POSIX or NuttX documents: a read of a timer waits until it has expired since the
-- last read. The semaphore of components4 is a parameter, with what POSIX says of it as hypotheses. The results of poll, epoll_wait and sem_wait
-- are arguments, with their promises as hypotheses.
--
-- In components5 the floating-point numbers, the mathematical library and the fixed-point library are
-- parameters; what the first documents for arguments between 0 and 1, and the second, up to an error of
-- its approximation, for angles between 1 / 16 and 1, is a hypothesis. A `b16_t` is an integer.
--
-- In a network of CAN nodes each node has its own driver; a frame comes to every node but, unless its
-- driver loops it back, its sender; none is lost. The master sends any well-formed messages with a data
-- byte, also under the identifiers of the nodes' own messages; `orders` are those that it sent, and they
-- take part in what the bus tells of a node. When `main` of a node returns, its task ends: its threads take
-- no further step. `listening` says whether thread_rx comes to its loop, which it does not if the build
-- leaves it out, pthread_create fails or led_init fails.
--
-- Not modelled: stack sizes, priorities and, but for the timers of components2, time; the parsing of
-- Modbus frames, which is FreeModBus; printing, but for hello, components4 and
-- components5; components1 and oscore, which have no logic of their own but empty loops and one print.
pub mod Prelude
pub mod Modbus
pub mod Cannode
pub mod Components2
pub mod Components3
pub mod Components4
pub mod Components5
pub mod Blinky
pub mod Hello
