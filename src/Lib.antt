-- ===== src/Lib.antt =====
-- Scripts of the Public_Trash repository: two pairs of programs that talk over TCP, and tools.
-- Each part below stands alone; the programs of a pair meet in the bytes on the connection.
--
-- The threaded relay, OLD/threaded_ether_relay.py, exchanges frames: a start marker, a word with
-- the length in bytes above a count of 16 bits, payload words, an end marker. A sender thread
-- makes frames and sends them in chunks; a receiver thread finds the frames again in what
-- arrives. The client connects again after a failure, with a growing wait; the server keeps a
-- list of clients.
--
-- - Relay/Frame.antt: `create_data_chunks` and `validate_block`. `random.randint` is the record
--   `Rng`, the number that each call draws within its range.
-- - Relay/HexDump.antt: `print_hex_words` and its helpers; the lines are a value.
-- - Relay/Connection.antt: the fields of `Connection`, its counters, `start_threads` and
--   `cleanup`.
-- - Relay/Sender.antt: `_sender_thread` and `_send_chunk`.
-- - Relay/Receiver.antt: `_receiver_thread` of `Connection` and of `ClientHandler`, over the
--   sequence of what `recv` gives.
-- - Relay/Client.antt: `ClientConnection.run`, over what happens in each turn.
-- - Relay/Program.antt: `main`, `disable_quickedit` and the state of the application.
-- - Relay/Together.antt: the frames that a sender makes, at the receiver of the peer.
-- - Relay/Server.antt: `ServerConnection`, over the sequence of what `accept` gives and which
--   threads exit.
--
-- The command programs, OLD/command_interface.py (the server) and OLD/test_command_interface.py
-- (the client), exchange packets with an index and an ASCII message; the server answers each with
-- a packet that says "ACK" and the index, and the client repeats a command until it sees that.
--
-- - Command/Socket.antt: a socket as the segments that will arrive on it, and `recv_all`.
-- - Command/Packet.antt: `create_packet`, `create_ack_packet`, `recv_command_packet` and
--   `recv_packet`.
-- - Command/Server.antt: the loop of `main` over the packets of a connection.
-- - Command/Server/Run.antt: `main` of the server, over what `accept` gives.
-- - Command/Client.antt: `send_and_receive`.
-- - Command/Client/Run.antt: the loops of the client's `main`, over the attempts to connect and
--   what arrives.
-- - Command/Together.antt: the server and the client with what each sends arriving at the other.
--
-- The tools stand alone.
--
-- - PacketHeader.antt: the class of OLD/packet_header.py, a word of 32 bits with four fields and
--   its bytes swapped.
-- - SharedMemory.antt: `open_shared_memory` of OLD/open_shared_win_mem.py, over what the calls of
--   Windows return; the state is what they hold open.
-- - SharedMemory/Strings.antt: the texts for the numbers that the same script reports.
--   SharedMemory/Session.antt: its `main`.
-- - Certificates.antt: gathering, merging and the exit status of OLD/check_certs.py, over what is
--   loaded from the files and how a certificate is parsed.
-- - Certificates/Load.antt: the candidates of a file, by `PEM_BLOCK_RE` or from its bytes.
--   Certificates/Report.antt: what `print_report` prints, and `main`.
-- - Certificates/Box.antt: `draw_box` of the same file, which frames the lines of its report.
-- - StructLayout.antt: `_parse_struct` of OLD/bit_field_scanner.py, from what its regular
--   expressions find to the offsets, sizes and masks.
-- - StructLayout/Registry.antt: the other methods of `StructParser`, over its three dictionaries.
-- - CertInspect.antt: the PEM blocks that OLD/cert_inspect.py finds in a file.
-- - CertInspect/Load.antt: which objects of a file the same script shows, over what the
--   cryptography package loads. CertInspect/Texts.antt: what is printed of a certificate and of a
--   key.
-- - FileCompare.antt: OLD/compare_files.py, over what the files hold. FileCompare/Report.antt:
--   the lines that it prints.
-- - SizeServer.antt: the blocks that OLD/cs_tester.py sends, and its receiver.
--   SizeServer/Handler.antt: the two threads of a connection as a step relation.
-- - Indentation.antt: `correct_indentation` of OLD/fix_indentartion.py.
-- - ThreadStops.antt: `main` of OLD/kill_threads_v4.py, by the moment of the signal.
-- - LogFinder.antt: `find_matching_logs` of OLD/logs.py, over what the directories list.
-- - HistoryRewriter.antt: fix-history.py, over what git answers; the calls made are the state.
-- - HexTool.antt: `hex_to_bytes` and `format_bytes_in_32bit_blocks` of OLD/connect.py.
--   HexTool/Session.antt: its `main`, round by round.
-- - StringExpansion.antt: `process_string` of OLD/funny_strings.py.
--
-- Base.antt passes on what the parts share: numbers, Boolean tests, lists, the exceptions of
-- Python as values of `Result`, the laws of the bit operations at variables (Base/Bits.antt),
-- dictionaries in the order of insertion (Base/Dicts.antt), strings with `strip`, `split` and
-- `join` (Base/Texts.antt), numerals (Base/Decimal.antt, Base/Hexadecimal.antt), stable sorting
-- by a key (Base/Sorts.antt), and `struct` for words of 32 bits (Base/Words.antt). Examples.antt
-- and its children apply the theorems at concrete inputs.
--
-- Loops run on fuel, and `stuck` stands for a loop that has none left. A round of the receiver's
-- inner loop takes a byte at least, unless an empty frame is in front, so the length of the
-- buffer plus one is enough; the loop that splits a frame takes a byte at least, so the length of
-- the frame is enough; `recv_all(n)` takes a byte in each round, so `n` is enough; the sender
-- makes two tests of the flags in a round, so one more than the number of the test that sees them
-- set is enough; the command server wants one more than the packets that arrive, and its `main`
-- gives each connection one more than the bytes. A round of `re.findall` takes a character and a
-- round of the loop over blocks takes a byte, so the length is enough for both; so it is for the
-- loop over PEM blocks, where a round takes a block, and to the search for the blocks of
-- certificates, where a round takes a character. The command client is watched for a number of
-- rounds on each connection, and a watch that ends ends the run. The loops of the client and the
-- server of the relay are structural in the events that are given.
--
-- Not modelled are what is logged and, but for the reports named above, what is printed, command
-- lines, signals, the sockets themselves, threads except as the calls that start and join them,
-- and the scripts whose work is done by a package or by Windows: the first two thread killers,
-- the walk for recent files and the SNMP trap; and of the tools with a model the sockets and
-- terminals themselves. A lock is taken around each single step that it guards.
mod Base
pub mod Relay
pub mod Command
pub mod PacketHeader
pub mod SharedMemory
pub mod Certificates
pub mod StructLayout
pub mod HexTool
pub mod FileCompare
pub mod CertInspect
pub mod SizeServer
pub mod Indentation
pub mod StringExpansion
pub mod ThreadStops
pub mod LogFinder
pub mod HistoryRewriter
mod Examples
