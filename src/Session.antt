-- ===== src/Session.antt =====
-- session.h: the processor of headers, the states of a session and its loop.
pub mod Peers
pub mod Processor
pub mod States
pub mod Sender
pub mod Rounds
pub mod Keeping
pub mod Window
pub mod Windows
pub mod Closed
pub mod FullWindow
pub mod Receiver
pub mod Received
pub mod ReceivedWindow
pub mod Ack
pub mod Loop
pub mod SentFile
pub mod WholeFile
pub mod Capsules
pub mod Series
pub mod Arriving
pub mod Acks
pub mod Finish
pub mod Finished
pub mod Listening
pub mod Turn
pub mod ReceivedFile
pub mod Graph
pub mod Hello
pub mod Telling
pub mod Greeting
pub mod Answering
pub mod Hearing
pub mod Connections
pub mod Shaken
pub mod Steps
pub mod Ends
pub mod Answered
pub mod LastWindow
pub mod Exchange
pub mod Transfer
pub mod Begun
pub mod First
pub mod Together
pub mod Whole
mod WindowTests
mod FileTests
mod WholeTests
mod ReceiverTests
mod Tests
