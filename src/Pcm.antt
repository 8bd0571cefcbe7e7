-- ===== src/Pcm.antt =====
-- src/pcm and AudioFormat: sample formats, and the export of DSD and PCM samples to the devices.
pub mod Format
pub mod DsdUsb
pub mod DsdNative
pub mod Pack
pub mod Reverse
mod Tests
pub mod Export
pub mod BitReverse
pub mod Swaps
