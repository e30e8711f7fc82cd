-- ===== src/Lib.antt =====
-- A model of the core of the IDC data centre server: the buffer of a connection, the timers of the
-- server, its HTTP service with requests, responses and connections, its loggers, its pool of threads,
-- IPv4 addresses, messages over sockets, heartbeats of processes, and functions on C strings.
--
-- The parts and how they interact. The server reads the bytes of a client into a `Buffer`; the
-- `HttpRequest` of the connection reads lines from it, takes them out one by one and stores the
-- method, the path, the version, the headers and the fields of a form. The `HttpResponse` of the
-- connection chooses a code and a file for it, and writes the status line and the headers to another
-- `Buffer`. `HttpConn` has the loops that read from the socket and write that buffer and the file to
-- it. Callbacks run by timers, which a `TimerManager` keeps in a set that is ordered by their expiry.
-- Every part writes to loggers, which a manager makes by name; a logger sends an event to its appenders
-- or, without any, to the root logger, and each appender formats it by its pattern. The tasks of the
-- server run in a `ThreadPool`; it listens by a `Socket` at an `IPv4Address` that is looked up, and its loop
-- takes the clients that `Epoll` reports. The collecting
-- programs talk by messages that `TcpClient` and `TcpServer` send and receive, and show that they live by
-- a `CpActive` each, which writes its entry in memory they share.
--
-- Which file models which part:
--   Buffer: src/buffer.cpp and include/buffer.h. The record `Buffer` has the fields buffer_, readPos_
--     and writePos_. `append`, `append_ptr` and `append_buffer` are the overloads of Append, `grow`
--     and `compact` the branches of MakeSpace_, `read_fd` and `write_fd` ReadFd and WriteFd; every
--     other function has the name of its method. Contents, Space and Transfers are about what each
--     operation does to the readable bytes, Queue and its child about histories of operations.
--   Timer: src/timer.cpp and include/timer.h. `TimerManager` has the set m_timers as a list of
--     addresses and the timers behind them in `heap`. `cancel`, `refresh` and `reset` are the
--     methods of class Timer; `list_expired_cb` is listExpiredCb, with `expired_range` for the
--     range it erases and `rearm` for its last loop. Order, Invariant, Moved, Expiry, Rearm,
--     ListExpired and Rollover are about the order of the set, what every operation keeps, timers that
--     are moved in it, the expired ones, and the clock.
--   Text: what the code uses of std::string, std::unordered_map and std::search. Search is about
--     where these find something.
--   Http.Request: src/httprequest.cpp and include/httprequest.h. `parse` is HttpRequest::parse,
--     `parse_round` a round of its loop and `parse_line` its switch; Form has
--     ParseFromUrlencoded_ and ConverHex. Grammar is about the two patterns, Rounds, Written and
--     RoundTrip about requests as a client writes them, Scan, Fields, FormText and Percent about
--     forms, Total about the end of the loop.
--   Http.Response: src/httpresponse.cpp and include/httpresponse.h. Every function has the name of its
--     method; `choose_code` is the start of MakeResponse, `add_connection` the branches of AddHeader_,
--     `known_code` and `status_of` those of AddStateLine_, `error_body` the page of ErrorContent. Answer
--     and Whole are about what is written, EmptyFile about a file without bytes.
--   Http.Conn: src/httpconn.cpp and include/httpconn.h. `written` is the body of the loop of write,
--     `answer` and `prepare` the start and the end of process, `Users` the static userCount. Delivery
--     and WriteLoop are about write, Prepared about process, Arrivals about read, Counting about
--     init and Close.
--   Strings: functions on character arrays of src/_public.cpp. `safe_strcpy`, `safe_strncpy`,
--     `safe_strcat` and `safe_strncat` are STRCPY, STRNCPY, STRCAT and STRNCAT; `strcpy` and the
--     others are those of the C library. Copies, Joined, Trimmed and Picked are about what an array holds
--     afterwards. Fields has SplitToCmd of CCmdStr, and Split is about its fields. Match has
--     MatchStr, with `match_pieces` for its inner loop, and Ends is about rules. Xml has GetXMLBuffer and
--     GetValue with their overloads; Tags, Stored and Tagged are about values between tags.
--   Log: src/log.cpp and include/log.h. Level has LogLevel and LogEvent. Formatter has the format items
--     and LogFormatter: `pattern_loop` is the outer loop of init, `scan_name` and `scan_format` the inner
--     one while fmt_status is 0 and 1, `items_loop` the last one; Pattern and RoundTrip are about the
--     patterns that can be read back. Logger has the appenders, the loggers and the manager in a heap of
--     objects; Written and Dispatch are about which lines an event becomes, Ready and Reach about what
--     every operation keeps. Config has the definitions and the listener of LogIniter, Applied is about
--     what a definition makes of a logger.
--   Net: the socket functions of src/_public.cpp and include/_public.h. Stream has Readn and Writen,
--     Frame TcpRead and TcpWrite, Client and Server the classes TcpClient and TcpServer. Whole and
--     RoundTrip are about messages that arrive, Descriptors about which descriptors are open.
--   ThreadPool: src/threadpool.cpp and include/threadpool.h. `worker_round` is a round of the loop of a
--     worker, `close_pool` the body of the destructor and `destroy_pool` the end of the members behind it;
--     Schedule is about every order of rounds.
--   Address: src/address.cpp, include/address.h and include/endian.h. `network_address` is networdAddress,
--     `address_to_string` insert with toString, the functions on getAddr() the operators. Lookup has
--     Lookup, with `parse_host` for its search of node and service, and the functions that use it.
--     Networks is about masks, Hosts about the texts of hosts.
--   Socket: src/socket.cpp and include/socket.h. `transfer` and `transfer_with` are send, recv, sendTo and
--     recvFrom, `new_sock` newSock; every other function has the name of its method. Descriptors and
--     Reached are about which descriptors are open.
--   Server: src/server.cpp and include/server.h, with src/epoll.cpp in Polling. `deal_listen` is dealListen
--     with `take_client` for a round of its loop, `mode_events` the switch of initEventMode, `serve_round`
--     a round of start and `serve_event` the body of its inner loop. Watched is about what epoll watches,
--     Listening about the constructor, Arrivals about the clients that dealListen takes.
--   Heartbeat: CSEM and CPActive of src/_public.cpp. `register` is AddPInfo from its first search on,
--     `leave` the destructor; the shared memory is a function from places to entries. Slots is about which
--     place a process gets.
--   Prelude: lists, memory, outcomes, words and integers that all of these share.
--   Tests: runs on concrete inputs.
--
-- Errors. A failed assert, an exception, an access outside a vector or a string and the erasure of
-- end() are values of `Fault`; an operation that can meet one returns a `Result`. size_t and uint64_t
-- wrap at 2 ^ 64 (`add64`, `sub64`).
--
-- Fuel. The loop of HttpRequest::parse and the loop of ParseFromUrlencoded_ run on fuel, one more
-- than the number of readable bytes and one more than the length of the body. Every round of the
-- first but its last takes at least two bytes from the buffer, and every round of the second moves
-- on by at least one byte, so the fuel is never used up; `exhausted` would say so. The loop of
-- HttpConn::write runs on one more than the bytes that are offered: every round but its last moves one.
-- The loop of SplitToCmd runs on one more than the length of the text, which is enough for a separator
-- that is not empty; with an empty one the code does not end. The loops of Readn and Writen run on the
-- number of bytes that are left, and every call that succeeds moves one. Logger::log goes on to the root
-- logger, which has no root itself, so fuel 2 is enough. CountBytes takes one of 32 bits out in each
-- round.
--
-- Parameters. The clock is an argument of every operation that reads it; the address of a new
-- timer is the allocator's choice; the outcomes of readv, writev and write are arguments of the
-- operations that call them; stat, open and mmap are the fields of `Files`. So are strftime and whether
-- a file can be opened for the loggers, the bytes that recv gives and send takes, the results of socket,
-- gethostbyname, connect, bind, listen, accept and poll, those of getaddrinfo, getifaddrs and
-- inet_pton, those of getsockname, getpeername, epoll_create, epoll_ctl and epoll_wait, and those of
-- semget, semctl, semop, shmget, getpid and time.
--
-- What is not modelled. The log output in every part; the database query of UserVerify, which stands
-- in comments; the lock of the timer manager, under which each operation is one step, and the gap
-- between the two locks of listExpiredCb, where the second test of the set decides alone; the locks of
-- the loggers, of which each operation is one step. The conversion of the configuration from and to
-- YAML is that of a library. The wrappers of threads, the MySQL wrapper and
-- the rest of src/_public.cpp have no model.
pub mod Prelude
pub mod Buffer
pub mod Timer
pub mod Text
pub mod Strings
pub mod Http
pub mod Log
pub mod Net
pub mod ThreadPool
pub mod Address
pub mod Heartbeat
pub mod Socket
pub mod Server
mod Tests
