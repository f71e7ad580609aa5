-- ===== src/Backend/Mocks.antt =====
-- lab1/user_service/mock_client/mock_client.go and lab1/video_service/mock_client/mock_client.go:
-- clients that run the service in memory. The draws of each call are an argument.
use cs426_spring2023_labs.Prelude.{ℕ, List, Option}
use cs426_spring2023_labs.Prelude.Map.{Map}
use cs426_spring2023_labs.Rpc.{Reply}
use cs426_spring2023_labs.Backend.Injection.{Draws, InjectionConfig}
use cs426_spring2023_labs.Backend.Users.{
  UserInfo, UserServiceOptions, UserServiceServer, make_user_service_server, get_user,
  set_user_injection_config,
}
use cs426_spring2023_labs.Backend.Videos.{
  VideoInfo, VideoServiceOptions, VideoServiceServer, TrendingResponse, make_video_service_server,
  get_video, get_trending_videos, set_video_injection_config,
}

pub record MockUserServiceClient : Type 0 where
  pub in_mem_server : UserServiceServer

abbrev pub make_mock_user_service_client :
    UserServiceOptions → Map ℕ UserInfo → MockUserServiceClient
make_mock_user_service_client options users = record {
  in_mem_server = make_user_service_server options users;
}

abbrev pub mock_get_user : Draws → MockUserServiceClient → List ℕ → Option (Reply (List UserInfo))
mock_get_user draws client user_ids = get_user draws client.in_mem_server user_ids

abbrev pub mock_set_user_injection_config :
    InjectionConfig → MockUserServiceClient → MockUserServiceClient
mock_set_user_injection_config config client = record client {
  in_mem_server = set_user_injection_config config client.in_mem_server;
}

pub record MockVideoServiceClient : Type 0 where
  pub in_mem_server : VideoServiceServer

abbrev pub make_mock_video_service_client :
    VideoServiceOptions → Map ℕ VideoInfo → List ℕ → MockVideoServiceClient
make_mock_video_service_client options videos drawn = record {
  in_mem_server = make_video_service_server options videos drawn;
}

abbrev pub mock_get_video :
    Draws → MockVideoServiceClient → List ℕ → Option (Reply (List VideoInfo))
mock_get_video draws client video_ids = get_video draws client.in_mem_server video_ids

abbrev pub mock_get_trending_videos :
    Draws → ℕ → MockVideoServiceClient → Option (Reply TrendingResponse)
mock_get_trending_videos draws now client = get_trending_videos draws now client.in_mem_server

abbrev pub mock_set_video_injection_config :
    InjectionConfig → MockVideoServiceClient → MockVideoServiceClient
mock_set_video_injection_config config client = record client {
  in_mem_server = set_video_injection_config config client.in_mem_server;
}
