-- ===== src/Lib.antt =====
-- Models and theorems of the EncodeOverEthernet demo: a server on an FPGA board takes raw images
-- over TCP, runs them through a JPEG-LS encoder core by way of an AXI DMA engine, and sends the
-- bitstreams back. The C sources are in EncodeOverEthernet/Software.
--
-- The parts and their files:
--
-- - common/ojls_proto.h, the 20-byte header of every message: Proto.antt. `struct ojls_hdr` is the
--   record `OjlsHdr`, and a byte buffer is a list of numbers.
-- - src/uio.c, src/uio.h, src/ojls_regs.h, a device with registers and an interrupt: Uio.antt,
--   with the clock helpers of the server and of the DMA driver, and Uio/Open.antt (`uio_find`,
--   `uio_open`, `uio_close`).
-- - src/udmabuf.c, the DMA buffers: Udmabuf.antt (the syncs), Udmabuf/Open.antt (`udmabuf_open`,
--   `udmabuf_open_nth`, `udmabuf_count`, `udmabuf_close`).
-- - src/axidma.c, src/axidma.h: AxiDma.antt (registers, `axidma_reset`, `axidma_sg_start`),
--   AxiDma/Ring.antt (`axidma_ring_build`), AxiDma/Wait.antt (`axidma_wait`,
--   `axidma_wait_packets`, `axidma_ring_bytes`), AxiDma/Open.antt (`axidma_open`, `axidma_close`).
-- - src/ojls_server.c: Server.antt (`struct hw`, `hw_configure`, `gate_set`, `hw_recover`),
--   Server/Io.antt (`recv_full`, `send_full`, `drain`), Server/Request.antt (the checks of
--   `serve_connection` and `stream_slot_bytes`), Server/Encode.antt (`send_error`,
--   `encode_and_reply`), Server/Stream.antt (`stream_send`, `stream_and_reply`), Server/Serve.antt
--   (`loopback_reply`, and the loop of `serve_connection`), Server/Open.antt (`hw_open`,
--   `hw_close`), Server/Main.antt and Server/Main/CommandLine.antt (`main`).
-- - host/ojls_client.c: Client.antt (`struct image`, the request of `main`), Client/Io.antt
--   (`recv_full`, `send_full`), Client/Connect.antt (`connect_host`), Client/Pgm.antt
--   (`pgm_token`, `pgm_load`), Client/Files.antt (the files and their paths, `write_jls`),
--   Client/Encode.antt (the round trips of `main`), Client/Reply.antt and Client/Stream.antt
--   (`run_stream`), Client/Main.antt and Client/Main/Args.antt (`main`).
--
-- The server opens its devices through the three drivers, serves one connection after another, and
-- in each one request after another; a request goes through the validation to the loopback, or to
-- the core by way of the drivers. The client is the peer at the other end of the connection:
-- Client/Loopback.antt joins the two, and Server/Serve/Service.antt has the abstract service that
-- a server in loopback mode offers, a function from the bytes received to the bytes sent.
-- Server/Order.antt has the rule of the DMA buffers, by which the CPU and the engine hand them
-- over: a kick counts for the offset, the size and the direction that are staged in the attributes
-- at that moment. The ranges flushed are checked whole; of the range of the rx buffer that goes to
-- the CPU, only the start is. Server/Stream/Answer.antt says what a stream reply reports of the
-- run that it ends, and Server/Replies/From.antt how that is carried to the message.
--
-- The files below a component's folder hold its theorems, Examples holds tests and the uses of the
-- theorems at concrete inputs, and Prelude the lists, numbers, tests and C strings that all share.
--
-- World.antt is what the programs reach only by system calls and mapped memory. A run is the list
-- of its events, newest first: register accesses, clock reads, sleeps, interrupt waits, sysfs
-- writes, descriptor stores and status reads, buffer reads and writes, socket reads and writes,
-- files, directories, devices opened, mapped and closed, connections made and accepted. An
-- environment `Env` answers each access as a function of the run so far, so that the engine, the
-- core, the kernel and the peer may do anything that depends on the past. World/Laws.antt names
-- what is relied on: `read` and `write` move at least one byte and at most what was asked for,
-- memory and socket hold bytes, a status word has 32 bits, signals interrupt at most `k` calls,
-- and a nanosecond passes between any two events. World/System.antt has the system calls,
-- World/Handles.antt counts the descriptors and mappings that a run holds, and World/Keeps.antt
-- and World/Tidy.antt carry a relation on runs, or that count, through a program step by step.
--
-- A function of the program is a function in `M`, which threads the run and may run out of fuel. A
-- loop over data is recursion on the data; a loop on the hardware, the clock or the socket has a
-- `fuel` argument. `Enough` is the fuel chosen for every loop of a request: more than the
-- nanoseconds of the time limits, plus `k`, plus twice the longest transfer, since a round of a
-- loop takes a nanosecond, a signal or a byte. `rounds` of `serve_connection` bounds the requests
-- of a connection, which only the peer ends; each takes 20 bytes at least. `clients` bounds the
-- accepts of the server, which a signal ends, or an accept that fails. The client has no time
-- limit: its fuel is more than the longest message, 4 GiB, plus `k`; and that of `hw_open` more
-- than the time limit of the reset.
--
-- Conventions. `size_t` has 32 bits, as on the board's 32-bit processor, and `uint64_t` sums wrap
-- at 2 ^ 64; both are written as remainders. A mask or a shift is a remainder or a quotient, and
-- `|` of disjoint fields a sum. A negative int is `negsuc`. The status codes are the numbers of
-- the header. The time limit of a request is a natural number: a connection served with a negative
-- option has no result (`serve_client`). Log lines are left out, their clock reads are kept. The
-- descriptor words that are always zero are left out of a store. A receive into the tx buffer is
-- one store after the receive. The mode flag is the option of the server that echoes payloads
-- without hardware.
--
-- The signal handler is the flag `stop`, which the environment may set at any time. The index of
-- `udmabuf_open_nth` is not negative. A name is the list of its bytes, cut where `snprintf` cuts
-- it. The record that a device's open leaves has `none` for -1, NULL and MAP_FAILED. `atoi` of a
-- number beyond `int`, which C leaves undefined, is the remainder of a 64-bit `strtol`.
--
-- Every system call returns: a `read`, `write` or `accept` that blocks for ever, on a peer that
-- stays silent, has no run here. Where a theorem says that a program ends, it is under that
-- assumption.
--
-- Not modelled: output on the terminal and the usage texts, `setsockopt`, `inet_ntop`, the setting
-- of the signal handlers, what `getaddrinfo` does (the number of addresses is a parameter), and
-- the release of memory blocks. Reading a file is one event that has its whole content, from
-- `fopen` to `fclose`, and so is writing one: the descriptors of files are not counted, those of
-- sockets and devices are. Everything that is not C, the hardware design and the test driver, is
-- left out. The byte swap of `pgm_load` stops at the end of the buffer, where the C goes on if the
-- size of the image has wrapped. The array `lens` of `loopback_reply`, which the C fills past its
-- end when the size that it asks for has wrapped, is here the list of all lengths.
pub mod Prelude
pub mod World
pub mod Proto
pub mod Uio
pub mod Udmabuf
pub mod AxiDma
pub mod Server
pub mod Client
pub mod Examples
