-- ===== src/Lib.antt =====
-- Verification of Barnard, a terminal client for the Mumble voice chat, in the parts of it that
-- decide what goes over the wire, what reaches the ears, what is recorded and what the screen shows.
--
-- A voice packet is an audio message, encrypted, in a datagram. Going out, the payload is framed by
-- encodeUDPAudio and encrypted by encrypt15; coming in, decrypt15 looks for the IV and checks the
-- tag, decodeUDPAudio reads the message, and dispatchOpus15 decodes the sound, conceals what was
-- lost and hands packets to the listeners.
--
-- Prelude (with Tests, Lists, Bits, Int, Table): the names of the library that the parts share, Boolean
--   tests, lists with a length in the native numbers, facts on xor and on byte masks, integers,
--   maps from keys as association lists, and stores.
-- Varint: gumble/gumble/varint/write.go (Encode, encode, MaxVarintLen) and read.go (Decode).
-- Protobuf: pbEncodeVarint and pbDecodeVarint of gumble/gumble/udp15.go.
-- UdpAudio: encodeUDPAudio and decodeUDPAudio of gumble/gumble/udp15.go.
-- Crypt/Block, Crypt/Iv: shift2inplace, shift3inplace, xor16, xorBytes, and advanceIV,
--   advanceIVHighBytes, backupIV of gumble/gumble/udp15.go. AES is a parameter, the record
--   BlockCipher: on 16-byte blocks encrypt and decrypt return blocks and decrypt undoes encrypt.
-- Crypt/Ocb15: ocb15Encrypt and ocb15Decrypt of gumble/gumble/udp15.go.
-- Crypt/State15: cryptState15 of gumble/gumble/udp15.go: setup15, encrypt15, decrypt15.
-- Crypt/Legacy: ocbCrypt, ocbEncrypt, ocbDecrypt and cryptState of gumble/gumble/crypt.go.
-- Voice: missingAudioPackets, audioFrameStep, dispatchPLC15, decodeAndDispatch, dispatchOpus15 of
--   gumble/gumble/udp15.go. The Opus decoder is a parameter.
-- Voice/Legacy, Voice/Socket: encodeLegacyUDPAudio, handleLegacyUDPVoice, HandleUDPPacket15 and
--   WriteAudioUDP15 of gumble/gumble/udp15.go.
-- Voice/Tunnel: handleUDPTunnel and dispatchPLC of gumble/gumble/handlers.go, voice through the control
--   connection.
-- Ui/Textview, Ui/Tree: uiterm/textview.go and uiterm/tree.go, all but the drawing. The generator of a
--   tree and the comparison of items are parameters.
-- Ui/Textbox: the history of the input line in uiterm/textbox.go, without the cursor.
-- Recorder: recording/recorder.go, the mixer and its loop; what the encoder's pipe answers comes with
--   each step.
--
-- Server: what the client knows of the server, Client, Channel and User of gumble/gumble/client.go,
--   channel.go and user.go, with two stores for the objects that these share by pointer. Below it
--   ChannelState, ChannelRemove, UserState and UserRemove: the handlers of gumble/gumble/handlers.go
--   with these names, from the unmarshalled message on. An event is a notice, with the objects by
--   pointer. Server/Config is handleServerConfig with the search for its recording field.
-- Conn: gumble/gumble/conn.go, the packets of the control connection, read from the bytes that the
--   network delivers and sent by calls of Write that may break off. proto.Marshal is a parameter.
-- Admin: the /admin commands of admin.go, over what the client knows of the server, from the text that is
--   typed to the message that is sent. Below it Words (texts and numbers), Bans (gumble/gumble/bans.go and
--   handleBanList), Acl (gumble/gumble/acl.go, permission.go and handleACL), Requests, Menu (OpenAdminMenu, up
--   to the view that it opens) and Command. strings.EqualFold, strings.ToLower, net.ParseCIDR and time.Parse are
--   parameters; the words of the output are left out.
-- Listeners: gumble/gumble/listeners.go, a doubly linked list of items in a store. Listeners/Audio:
--   gumble/gumble/audiolisteners.go and dispatchAudio of gumble/gumble/handlers.go, where each item has
--   Go channels too; a critical section is a step, and the steps come in any order.
-- RwMutex: rpwMutex of gumble/gumble/rpwmutex.go, the reader-preferred lock over these objects, for any
--   number of goroutines whose single accesses interleave.
--
-- Bytes are numbers below 256; an int64 is an integer in range, with its wrap-around written out; a
-- float32 is its 32 bits. A method that locks its object is one step from state to state. Where a slice, a
-- read or an index out of range would panic in UdpAudio, Voice/Legacy and Voice/Tunnel, the model says so.
--
-- Fuel: pb_encode has the ten bytes of its buffer as fuel; decode_udp_audio and the loops of the
-- cipher have the length of their input, since each round takes at least one byte; l_ntz halves a
-- number that is its fuel; rebuild_rec has the levels that are left below the depth of 64;
-- recording_rounds has its bytes, of which each round takes one (enough_rounds), and items_from the
-- number of items that were ever made.
--
-- Not modelled: the other handlers of the control channel, the view of the menu with its prompts, and the settings;
-- as input and output, the network, the terminal, files and processes, the logs, the
-- generated protobuf code, OpenAL, ffmpeg and Opus.
pub mod Admin
pub mod Conn
pub mod Crypt
pub mod Listeners
pub mod Prelude
pub mod Protobuf
pub mod Recorder
pub mod RwMutex
pub mod Server
pub mod UdpAudio
pub mod Ui
pub mod Varint
pub mod Voice
