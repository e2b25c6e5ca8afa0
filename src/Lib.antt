-- ===== src/Lib.antt =====
-- Programs of a network programming course (one folder for each assignment): a TCP echo server and
-- its client (Programming_Assignment_1), the server and the client of a chat protocol
-- (Programming_Assignment_2), a TFTP server (Programming_Assignment_3), and an HTTP proxy with a cache
-- and its client (Programming_Assignment_4).
-- They are independent of one another. Each is a `main` over the routines of its helper.c.
--
-- Base has what the parts share: tests on numbers, lists with native numbers, bytes, C strings, files by
-- name, and what the programs use of the C library for texts: numbers as sprintf writes and sscanf
-- reads them (Numerals), and a text split at separators, as by sscanf's %s and by strtok (Words).
-- Select has an fd_set, and the loop that the chat server and the proxy have behind select, over what they
-- do for a descriptor (an argument). Its fuel is FD_SETSIZE rounds and one, which is enough, since
-- max_fd, its bound, is below FD_SETSIZE.
-- Start has what the programs do before their loops: a program is a list of its calls and how it ends, the
-- parts of a program follow one another by do, and a record (Kernel) says what each call comes to.
-- Its Stages are the life of a socket, as a step relation that the calls of a program have to follow.
--
-- Echo: Programming_Assignment_1/src/helper.c, server.c and client.c.
--   Io: the calls of read and write. A call takes its answer from a script (bytes, an interrupted
--     call, an error, the end of the stream), and the bytes written are kept in a trace.
--   Write: writen. ReadLine: iReadLine. Server: read_write. Client: the loop of main of client.c.
--   Accept: the loop of main of server.c, where every child has a copy of the descriptors of its parent.
--   Main: main of server.c with the routines of helper.c that open the socket. Client/Connect: the same
--   of client.c. Conversation: a client and a child of the server that read what the other one writes.
--   The loops run over the script, which every call shortens, so no fuel is needed; read_write on a
--   descriptor whose reads fail goes on for ever, and has a bound on its rounds.
--
-- Tftp: Programming_Assignment_3/src/helper.c and server.c.
--   Wire: messages as bytes in network order; a block number is a uint16_t and wraps around.
--   Socket: send_message, send_data, send_ack, send_error_message and receive_message over a network,
--     which says for every moment what recvfrom brings and whether sendto works; any network stands
--     for loss, delay, repetition and wrong messages.
--   Netascii: create_temp_file. Request: the tests at the start of handle_message, and get_mode.
--   Exchange: what a session has sent and received, and how it ends.
--   Download, Upload: the RRQ and WRQ branches of handle_message with their retries. Each wait is at
--     most MAX_RETRIES calls. The loop over the blocks of a download has as many rounds as the file
--     has bytes, and one, which is enough, since each round takes a block off the file; an upload
--     is as long as the client makes it, so its bound is an argument of the theorems.
--   Handle: handle_message as a whole, over a map from names to files. Server: the loop of main, and
--     a round with the session of the child process that it starts, whose socket is its own.
--   Main: the start of main.
--
-- Chat: Programming_Assignment_2/src/server.c, helper.c and client.c.
--   Message: the messages, and the texts of get_join_message and get_hung_message. A text that
--     does not fit its array has no result, since C leaves undefined what happens then.
--   Room: the array `clients` with `client_count`, `max_client`, the set `set1`, `max_fd` and the
--     listening socket; check_name, remove_client, and the loop that sends to all.
--   Join: accept_connection, join_message_process and the announcement of a new client in main.
--   Broadcast: broadcast_message. Server: what main does for a socket that select has found ready, and
--     a round of its loop over all of them. Reachable has the states that sequences of these steps
--     come to.
--   Sockets: the routines that open a socket. Main, Client/Connect: the start of main of server.c and of
--     client.c.
--   A call gives the new room and what it has sent and closed, in order; or it exits; or its result
--   is undefined. Which sends work, and what a fresh block of malloc holds, are arguments.
--   Client: the messages of client.c and what it shows. Its two threads, main and vSendIdleMessage, are
--     a step relation (Move), one step for each stretch of code that no other thread sees the middle
--     of; Runs has the states that any interleaving comes to.
--
-- Proxy: Programming_Assignment_4/src/helper.c, http.c and client.c.
--   Request: iFormat_Read_Request, with sscanf as a parameter, vSend_Error_Message, and the test in main
--     of what a client asks.
--   Times: iMonthCoverter and iTime_Comparison_Func, with sscanf as a parameter.
--   Stamp: the texts of the time that main writes with sprintf, and the format of
--     iTime_Comparison_Func over numbers without a sign.
--   Cache: sCache_table, check_cache_entry, iCheck_Cache_Entry_Hit, iCheck_Cache_Entry_Expire, and of
--     main the choice of the entry to use and what is put into it.
--   Texts: the requests to the web server, the search for "Expires: ", and the name of a file.
--   Session: a request from recv to its answer, with the table, the files of the cache and
--     iOldest_Entry: the download of a new url, the answer from the cache, and the request to the web
--     server for a url that has expired. What the web server sends, which calls work, which files can be
--     written and the time are arguments. Where main returns, the proxy ends.
--   Server: a round of the loop of main, with accept and the set of descriptors. Reached has the
--     states that sequences of rounds come to.
--   Main, Client/Connect: the start of main of http.c and of client.c.
--   Client: the request of client.c, the name of its file, and what is written to it.
--   Visits: client and proxy together.
--   The other loops run over the table, the chunks or the text, so no fuel is needed.
--
-- Not modelled: what is printed of the calls; signals and wait in the echo and the TFTP server; a disc
-- that is full (fwrite and fputc write everything); calls on a web server that wait for ever; the
-- addresses of the clients, which the chat server stores and does not read, but for the bounds of
-- their array; the packing of the fields of a chat message into words; the routines for TCP in
-- Programming_Assignment_3/src/helper.c and in Programming_Assignment_4/src/helper.c, which nothing
-- calls; and Programming_Assignment_5, a script for a simulator.
pub mod Base
pub mod Echo
pub mod Tftp
pub mod Chat
pub mod Proxy
