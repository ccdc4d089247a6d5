-- ===== src/Lib.antt =====
-- The libmobile library: an emulation of Nintendo's Mobile Adapter GB, which a game talks to over
-- the link cable and which the embedding program gives sockets, timers and a stored configuration.
--
-- Parts and files. The game's bytes reach the serial state machine (serial.c; Serial/): its states
-- receive a packet (Serial/Incoming), wait for the response and send it (Serial/Outgoing), and
-- Serial/Transfer dispatches on the state, as `mobile_serial_transfer` does. The main loop
-- (mobile.c; Mobile/) decides what to do (`mobile_actions_get`, Mobile/Actions), takes a packet
-- that has arrived and writes the response (`command_handle`, Mobile/Handle), and starts, stops and
-- resets the adapter (Mobile/Loop). The handlers of the commands (commands.c; Commands/) are one
-- function each: the session (Session), the status and the stored configuration (Query), login and
-- TCP (Internet), data (Transfer), dialling (Tel), waiting for a call (WaitCall), DNS (Lookup), and
-- the table of all (Process). Calls go through a relay server (relay.c; Relay/): its messages
-- (Exchange), its connection states (Connect) and the procedures that use them (Procedure). Names
-- are looked up by dns.c (Dns/): names in packets (Name), queries and responses (Query) and their
-- exchange with a server (Request). config.c is Config/, util.c is Util, callback.h is Callback,
-- and callback.c, with the default callbacks, Callback/Default. The log (debug.c; Debug/) has the
-- buffer of a line (Line) and what is printed of a packet (Command) and of the relay server's
-- messages (Relay), as the list of the calls that print; `vsnprintf` is a parameter of it. The
-- records of the state, from mobile.h, mobile_data.h and the headers of the parts, are in Adapter
-- and Serial/Types. Prelude has the shared notation and the lemmas on lists and numbers.
--
-- Correspondence. A C function that changes the adapter takes and returns the record `Adapter W`;
-- `W` is the state behind the `user` pointer, and the callbacks are a record `Callback W` of
-- functions on it. A handler returns the packet to send, or `none` while it is in progress, with
-- the new adapter. Fields of a width of w bits wrap at 2 ^ w where the C code lets them. An `int`
-- that may be negative is an integer (ℤ). A plain `char` is signed, as on x86 and AVR.
-- A packet's `data` pointer always leads to the serial buffer, so a packet is a command and a
-- length. In the C code the serial, command, relay and DNS buffers share memory in part; here each
-- is a field of its own.
--
-- Bounds. The loop that compares a DNS name with one in a packet may not end, so it runs on fuel,
-- and `looping` (`none` in its callers) says that the fuel has run out. `dns_name_len` has one
-- round more than the packet has bytes, and each round moves on by one at least. All other loops are
-- structural.
--
-- Not modelled: the lines that the other parts print to the log, since they change no other state;
-- inet_pton.c, a copy of another library's parser, whose result is the parameter `pton` of the
-- DNS command; the atomics, since the interrupt and the loop run as whole calls here. What
-- a function leaves half written in a scratch buffer on a failing path is not kept.
--
-- Interfaces. What the library relies on in the embedding program is a record of laws of its
-- callbacks: a storage that keeps what is written to it (Config/Storage), on which the settings are
-- saved, loaded and kept while the game writes (Config/Survival), and a connection that takes data
-- in order (Sockets/Stream), on which the rounds of a data command send (Sockets/Rounds)
-- and come to an end (Sockets/Finished).
--
-- Proofs. Names in DNS packets are sequences of labels there (Dns/Labels, Text), which are found
-- again when they are compared (Echo); a query (Asked) and the response to it (Answer) are whole
-- packets of them, up to a lookup (Resolved); Wrapped is about the id of a query. Sockets/ has a
-- program that keeps account of its sockets, and that each handler uses them properly; Frames/ has
-- what each handler leaves alone. Whole/ joins them: what holds before a handler is called
-- (Pending) and between two calls of the program (Sound), the diagram of the connection (Turn), the
-- table of the commands (Answers), a round of the main loop (Process, Round), and the calls of the
-- program as a step relation (Step). There a round of the main loop is one that returns, since the
-- loop over a name of a DNS response may not. Serial/Diagram has the states of the serial machine
-- as a diagram that each byte follows. Tests/ has runs on concrete inputs.
pub mod Prelude
pub mod Serial
pub mod Adapter
pub mod Callback
pub mod Util
pub mod Config
pub mod Commands
pub mod Sockets
pub mod Frames
pub mod Relay
pub mod Dns
pub mod Debug
pub mod Mobile
pub mod Whole
pub mod Tests
