-- ===== src/Lib.antt =====
-- Verification of the SDR-UDP library (sdr-udp/): reliable transfer of large messages over UDP, with a
-- TCP control plane and bitmaps of what has arrived.
--
-- A receiver posts a buffer; a slot of the connection's message table gets it, with a bitmap of one
-- bit per packet and one of one bit per chunk. The sender cuts its buffer into packets of the agreed
-- size and sends them as datagrams over several ports. One worker thread per port checks the
-- datagrams, copies their payload to its place in the buffer and sets the packet's bit; a poller
-- marks the chunks that are complete.
--
-- Backend     sdr-udp/include/sdr_backend.h, BackendBitmap: the packet bitmap
-- Frontend    sdr-udp/include/sdr_frontend.h, FrontendBitmap: the chunk bitmap and its poller;
--             Frontend/Tracking has the two bitmaps under interleaved updates
-- Packet      sdr-udp/include/sdr_packet.h, SDRPacketHeader and SDRPacket
-- Control     sdr-udp/include/tcp_control.h: the data of the control messages
-- Connection  sdr-udp/include/sdr_connection.h, ConnectionContext: the table of messages; Connection/Life
--             has what is given and refused while a slot is taken
-- Receiver    sdr-udp/include/sdr_receiver.h, UDPReceiver: a worker's loop and process_packet
-- Api/Send    sdr-udp/src/sdr_api.cpp, sdr_send_post: the loop that makes and sends the packets
-- Api/Params  sdr-udp/src/sdr_api.cpp: the negotiation of parameters in sdr_recv_post
-- Api/Recv    sdr-udp/src/sdr_api.cpp, sdr_recv_post: the slot of a receive
-- Transfer    a message from the sender's buffer to the receiver's, through all of these
-- Api/Complete  sdr-udp/src/sdr_api.cpp: sdr_recv_complete and the loop of sdr_send_poll
-- Sr/Report   sdr-udp/reliability/sr.cpp, SRReceiver::pump: the report of the chunks
-- Sr/Acks     sdr-udp/reliability/sr.cpp, SRSender::poll: what the sender takes from a report
-- Sr/Sender   sdr-udp/reliability/sr.cpp, SRSender: retransmissions and the window; Sr/Sender/Poll
--             has start_send from the handle on and the loop of poll, Sr/Sender/Start the whole of it
-- Config      sdr-udp/src/config_parser.cpp, ConfigParser; Config/Reload has the files that it reads
-- Ec          sdr-udp/reliability/ec.cpp: the sizes, ECReceiver; Ec/Sender has ECSender, Ec/Resend a request
--             for chunks and its answer
-- Receiver/Workers  sdr-udp/include/sdr_receiver.h, UDPReceiver: start and stop
-- Api/Post, Api/SendPost, Api/Control  sdr-udp/src/sdr_api.cpp: the calls that open a connection,
--             sdr_recv_post and sdr_send_post as a whole, and the control messages between them
-- Api/Stream  sdr-udp/src/sdr_api.cpp: the streaming send
-- Tcp         sdr-udp/src/tcp_control.cpp: TCPControlServer and TCPControlClient; Tcp/Stream has the
--             byte stream and the messages on it, Tcp/Descriptors the descriptors that are opened and closed
-- Examples    sdr-udp/examples/sdr_test_sender.cpp and sdr_test_receiver.cpp: Examples/Args has the command
--             lines, Examples/Sender and Examples/Receiver what main sets up, Examples/Receive the receiver's
--             loop, Examples/Progress its display, Examples/Verify the bytes that are sent and their test
-- Common      shared helpers: lists, Boolean tests, words and arrays of words
--
-- Operations keep the source's names. State is passed explicitly: an operation takes the record that
-- stands for its object and gives the one after it. An access outside an array or a buffer, which the
-- source does not prevent and C++ does not define, is the outer `none`. Numbers are natural numbers;
-- an unsigned sum or product that can wrap is cut to its width where the source computes it.
-- An atomic operation, a call under a mutex and the processing of one packet are each one step; the
-- C++ memory orders are not modelled. Loops over a range are recursion on the number of rounds that
-- the source's bounds give; of the loops on fuel, the one over the gaps of a report (Sr/Report, gaps_from)
-- has as much as there are chunks, and each round moves on by a chunk at least; the one over recv (Tcp,
-- recv_loop) has as much as a message has bytes, and each round gets a byte at least. A thread's loop,
-- and a loop that waits for messages, runs over the list of what its rounds see.
--
-- Not modelled: sockets, threads and allocation (what the system answers is an input or a
-- parameter), htons and its like and the compiler's layout of the packed header (parameters with
-- laws; Packet/LittleEndian has an instance), the printing of messages, the routines of ISA-L,
-- what the example programs print and the clock that they read, and the scripts.
pub mod Common
pub mod Backend
pub mod Frontend
pub mod Packet
pub mod Control
pub mod Connection
pub mod Receiver
pub mod Api
pub mod Transfer
pub mod Sr
pub mod Tcp
pub mod Ec
pub mod Config
pub mod Examples
