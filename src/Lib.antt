-- ===== src/Lib.antt =====
-- libcornrow: a C++ library that moves audio from network sources through chains of nodes to sinks.
--
-- A source (src/core/Source.cpp) gets a packet in a buffer from a pool and pushes it along a chain
-- of nodes; a selector (src/core/SourceSelector.cpp) decides which source may push. Nodes change the
-- buffer in place, take it away, or empty it; src/rtp/RtpDecoder.cpp is the node that takes RTP
-- headers off.
--
-- Files, and what they model (paths from the repository's root):
--   Base/*             Boolean tests, lists, `memcpy`, bytes and `size_t`, bit masks
--   Core/Flags         include/coro/core/Flags.h
--   Core/Buffer        src/core/Buffer.cpp: acquire, commit, prepend, grow, shrink, clear, trim_front, trim_back
--   Core/Pool          src/core/BufferPool.cpp: acquire, release (`BufferDeleter`)
--   Core/Node          src/core/Node.cpp: process (`process(BufferPtr&)`), process_conf (the older one);
--                      src/core/AppSource.cpp: app_source_process
--   Core/Source        src/core/Source.cpp: the loops along the chain, forward (in `pushBuffer`)
--   Core/Selector      src/core/SourceSelector.cpp and the functions of a source that call its ready callback
--   Core/Udp           src/core/UdpSource.cpp: the constructor, receiving and the timer
--   Core/Fd            src/core/FdSource.cpp
--   Core/Tcp           src/core/TcpClientSink.cpp
--   Core/AppSink       src/core/AppSink.cpp
--   Core/Base64        src/core/Util.cpp
--   Audio/Types        src/audio/AudioTypes.cpp, src/audio/AudioConf.cpp and their headers
--   Audio/Caps         include/coro/audio/AudioCaps.h, include/coro/core/Caps.h
--   Audio/Alsa         src/audio/AlsaSink.cpp, src/audio/SpdifTypes.h: set_params2, do_ac3_payload,
--                      write_simple, recover, the sink
--   Audio/Encoder      src/audio/AudioEncoderFfmpeg.cpp: on_process, on_stop and what they call
--   Audio/Decoder      src/audio/AudioDecoderFfmpeg.cpp
--   Audio/Converter    src/audio/AudioConverter.cpp
--   Audio/Scream       src/audio/ScreamSource.cpp
--   Audio/Sbc          src/audio/SbcDecoder.cpp
--   Audio/PortAudio    src/audio/PortAudioSink.cpp
--   Audio/TestSource   include/coro/audio/AudioTestSource.cpp
--   Audio/Device       src/audio/AudioDeviceInfo.cpp, the device list of src/audio/PortAudioSink.cpp
--   Audio/Sinks        src/audio/FileSink.cpp, src/audio/AudioAppSink.cpp;
--                      Audio/Sinks/Hdmi: src/pi/PiHdmiAudioSink.cpp
--   Airplay/Decrypter  src/airplay/AirplayDecrypter.cpp
--   Airplay/Handler    src/airplay/AirplayRtspMessageHandler.cpp
--   Airplay/Alac       src/airplay/AlacDecoder.cpp
--   Airplay/Source     src/airplay/AirplaySource.cpp, src/airplay/AirplaySourcePrivate.cpp
--   Dsp/Numbers        float and double as interfaces, the storage as floats
--   Dsp/Design         include/Types.h, the coefficients of src/audio/TBiquad.cpp
--   Dsp/Biquad         src/audio/TBiquad.cpp
--   Dsp/Crossover      src/audio/Crossover.cpp
--   Dsp/Equalizers     src/audio/Peq.cpp, src/audio/Loudness.cpp
--   Rtsp/Headers       std::regex and std::map as the parsers use them
--   Rtsp/Message       src/rtsp/RtspMessage.cpp, src/rtsp/RtspMessageHandler.cpp
--   Sdp                src/sdp/Sdp.cpp
--   Rtsp/Server        src/rtsp/RtspServerPrivate.cpp as a machine driven by completions
--   Rtp/Header         src/rtp/RtpTypes.h, src/rtp/RtpTypes.cpp
--   Rtp/Decoder        src/rtp/RtpDecoder.cpp
--   ZeroConf           src/zeroconf/ZeroConfServer.cpp
--
-- State is passed explicitly. A buffer is its private part, its storage the list of its bytes; a
-- pointer into it is a byte offset. A write out of the storage, a read out of a string and a call
-- through a null pointer are the result `none`, and so is an assertion that fails; that of
-- `TBiquad::process` is a condition of the theorems on it. The pool keeps buffers with their addresses. Nodes
-- are records of functions on a world that holds their states and the pool; the pool is the
-- interface Core.Node.Buffers for them, which Core/Node/Pooled implements. `size_t` is 64 bits wide
-- and its arithmetic is written with the wrap-around; loops are structural, but for seven on fuel:
-- the headers of a request, where one round more than the text has bytes is enough; the writes to an
-- ALSA device, where the frames and a bound on the failures are, and the wait until it resumes,
-- where one round more than the seconds that it takes is; the frames of the encoder and those of the
-- SBC decoder, of which each takes a byte at least; the wait of the TCP sink, where the rounds of
-- the main loop until the connection attempt completes are enough; the wait for the latency of the
-- HDMI device, where the sleeps until it has sunk are. The filters read and write floats by their
-- index in the storage: an input and an output are two indices, and may be the same. The state of
-- the Airplay handler is optional: `none` after an exception.
--
-- Parameters: std::regex (Rtsp.Headers.Regex), ALSA (Audio.Alsa.Alsa), libav (Audio.Encoder.Libav,
-- Audio.Decoder.LibavDecoder), OpenSSL (Airplay.Decrypter.OpenSsl), the SBC library (Audio.Sbc.Sbc),
-- the ALAC decoder (Airplay.Alac.Alac), the DNS service (ZeroConf.DnsService), asio's resolver,
-- socket and loop (Core.Tcp.Net), PortAudio (Audio.PortAudio.PortAudio), the audioplay functions
-- (Audio.Sinks.Hdmi.Audioplay), which file names open for writing, the arithmetic of float and
-- double (Dsp.Numbers, Audio.Converter.FloatCode), the virtual functions of an RTSP handler, how
-- std::vector grows (Core.Buffer.Allocator, at least to what is needed) and what the virtual
-- functions of a node do.
--
-- Not modelled: log lines, the mutex and the atomics of a source (calls are sequential), big-endian
-- machines, the integer and double instances of TBiquad, the io_context behind the main loop, the
-- operators that write a struct to a stream; the copies of loguru, of the ALAC decoder and of the
-- Raspberry Pi examples.
pub mod Airplay
pub mod Audio
pub mod Base
pub mod Core
pub mod Dsp
pub mod Rtp
pub mod Rtsp
pub mod Sdp
pub mod ZeroConf
