-- ===== src/Sdk.antt =====
-- src/NivaloDeviceSdk.cpp and src/NivaloSdkRegistry.{h,cpp}: what an application registers, and the
-- commands that its handlers run.
pub mod Registry
pub mod Dispatch
